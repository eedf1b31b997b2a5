-- ===== src/Flash/Entry.antt =====
-- An entry of the flight plan that src/drivers/nanomind/data_storage.c wrote, read back.
use balloon_suchai_flight_so.Prelude.{
  ℕ, ◌%◌, refl, ◌+◌, ◌<◌, ◌≤◌, ◌^◌, ◌≡◌, ap, sym, ◌∙◌, inl, inr, arith, List, [], ◌∷◌, ◌++◌, length,
  length-append,
}
use balloon_suchai_flight_so.Prelude.Upto.{upto}
use balloon_suchai_flight_so.FlightPlan.{Job}
use balloon_suchai_flight_so.Flash.{Flash, max_command_size, storage_init, blank_byte}
use balloon_suchai_flight_so.Flash.Plan.{read_job}
use balloon_suchai_flight_so.Prelude.Words.{u32_mod}
use balloon_suchai_flight_so.Flash.Writes.{upto-cut, final, final-block, plain_writes, numbers}

-- The numbers and strings of a job that fit an entry.
pub record Fits (timetodo : ℕ) (job : Job) : Type 0 where
  pub time : timetodo < 2 ^ 32
  pub executions : job.executions < 2 ^ 32
  pub periodical : job.periodical < 2 ^ 32
  pub command : length job.command ≤ 64
  pub args : length job.args ≤ 64

module _ {F : Type 0} (flash : Flash F)
    (writes_done : (a : ℕ) (bs : List ℕ) (g : F) → (flash.write_data a bs g).0 ≡ 0)
    (word : ℕ → List ℕ) (number : List ℕ → ℕ) (four : (x : ℕ) → length (word x) ≡ 4)
    (number-word : (x : ℕ) → x < 2 ^ 32 → number (word x) ≡ x) where
  length-numbers : (job : Job) → length (numbers flash writes_done word job) ≡ 16
  length-numbers job =
      let c = word (length job.command) in
      let d = word (length job.args) in
      let b = word job.periodical in
      length-append (word job.executions) (b ++ (c ++ d))
      ∙ omega (
        arith,
        length-append b (c ++ d),
        length-append c d,
        four job.executions,
        four job.periodical,
        four (length job.command),
        four (length job.args),
      )

  -- The four writes read back.
  pub record Blocks (add timetodo : ℕ) (job : Job) (g : ℕ → ℕ) : Type 0 where
    pub time : upto g add 4 ≡ word timetodo
    pub figures : upto g (add + 4) 16 ≡ numbers flash writes_done word job
    pub command : upto g (add + 20) (length job.command) ≡ job.command
    pub args : upto g (add + 84) (length job.args) ≡ job.args

  pub final-Blocks :
      (add timetodo : ℕ) (job : Job) (f : F)
      → Fits timetodo job
      → ((k : ℕ) → k < max_command_size → flash.byte (add + k) f ≡ blank_byte)
      → Blocks add timetodo job (λ k.
        flash.byte k
          (final flash writes_done (plain_writes flash writes_done word add timetodo job) f))
  unfolding final
  final-Blocks add timetodo job f fits blank =
      let block = final-block flash writes_done in
      let w_1 : ℕ × List ℕ = (add, word timetodo) in
      let w_2 : ℕ × List ℕ = (add + 4, numbers flash writes_done word job) in
      let w_3 : ℕ × List ℕ = (add + 20, job.command) in
      let w_4 : ℕ × List ℕ = (add + 84, job.args) in
      let l_1 = four timetodo in
      let l_2 = length-numbers job in
      let l_3 = fits.command in
      let l_4 = fits.args in
      let g = λ (k : ℕ). flash.byte k (final flash writes_done (w_1 ∷ w_2 ∷ w_3 ∷ w_4 ∷ []) f) in
      record {
        time =
            ap (upto g add) (sym l_1)
            ∙ block [] (w_2 ∷ w_3 ∷ w_4 ∷ []) add (word timetodo) f
                (λ k l. blank k (omega (arith, l, l_1))) (λ k l. tt)
                (λ k l. (
                  inl (omega (arith, l, l_1)),
                  (inl (omega (arith, l, l_1)), (inl (omega (arith, l, l_1)), tt)),
                ));
        figures =
            ap (upto g (add + 4)) (sym l_2)
            ∙ block (w_1 ∷ []) (w_3 ∷ w_4 ∷ []) (add + 4) (numbers flash writes_done word job) f
                (λ k l.
                  ap (λ (a : ℕ). flash.byte a f) (omega arith)
                  ∙ blank (4 + k) (omega (arith, l, l_2)))
                (λ k l. (inr (omega (arith, l_1)), tt))
                (λ k l. (inl (omega (arith, l, l_2)), (inl (omega (arith, l, l_2)), tt)));
        command =
            block (w_1 ∷ w_2 ∷ []) (w_4 ∷ []) (add + 20) job.command f
              (λ k l.
                ap (λ (a : ℕ). flash.byte a f) (omega arith)
                ∙ blank (20 + k) (omega (arith, l, l_3)))
              (λ k l. (inr (omega (arith, l_1)), (inr (omega (arith, l_2)), tt)))
              (λ k l. (inl (omega (arith, l, l_3)), tt));
        args =
            block (w_1 ∷ w_2 ∷ w_3 ∷ []) [] (add + 84) job.args f
              (λ k l.
                ap (λ (a : ℕ). flash.byte a f) (omega arith)
                ∙ blank (84 + k) (omega (arith, l, l_4)))
              (λ k l. (
                inr (omega (arith, l_1)),
                (inr (omega (arith, l_2)), (inr (omega (arith, l_3)), tt)),
              ))
              (λ k l. tt);
      }

  -- A number at the start of the bytes, and what is behind it.
  number-cut :
      (g : ℕ → ℕ) (a n x : ℕ) (ys : List ℕ)
      → n ≡ 4 + length ys
      → x < 2 ^ 32
      → upto g a n ≡ word x ++ ys
      → (number (upto g a 4) ≡ x) × (upto g (a + 4) (length ys) ≡ ys)
  number-cut g a n x ys e small h =
      let (first, second) = upto-cut g a n (word x) ys (omega (arith, e, four x)) h in
      (
        ap (λ (k : ℕ). number (upto g a k)) (sym (four x)) ∙ ap number first ∙ number-word x small,
        ap (λ (k : ℕ). upto g (a + k) (length ys)) (sym (four x)) ∙ second,
      )

  -- The four numbers.
  record Figures (a : ℕ) (job : Job) (g : ℕ → ℕ) : Type 0 where
    pub executions : number (upto g a 4) ≡ job.executions
    pub periodical : number (upto g (a + 4) 4) ≡ job.periodical
    pub name_len : number (upto g (a + 8) 4) ≡ length job.command
    pub args_len : number (upto g (a + 12) 4) ≡ length job.args

  numbers-Figures :
      (a timetodo : ℕ) (job : Job) (g : ℕ → ℕ)
      → Fits timetodo job
      → upto g a 16 ≡ numbers flash writes_done word job
      → Figures a job g
  numbers-Figures a timetodo job g fits h =
      let c = word (length job.command) in
      let d = word (length job.args) in
      let b = word job.periodical in
      let l_cd : length (c ++ d) ≡ 8 =
        length-append c d ∙ omega (arith, four (length job.command), four (length job.args)) in
      let l_bcd : length (b ++ (c ++ d)) ≡ 12 =
        length-append b (c ++ d) ∙ omega (arith, l_cd, four job.periodical) in
      let cut_1 =
        number-cut g a 16 job.executions (b ++ (c ++ d)) (omega (arith, l_bcd)) fits.executions h in
      let cut_2 =
        number-cut g (a + 4) (length (b ++ (c ++ d))) job.periodical (c ++ d)
          (omega (arith, l_bcd, l_cd)) fits.periodical cut_1.1 in
      let cut_3 =
        number-cut g (a + 4 + 4) (length (c ++ d)) (length job.command) d
          (omega (arith, l_cd, four (length job.args))) (omega (arith, fits.command)) cut_2.1 in
      let last : number (upto g (a + 4 + 4 + 4) 4) ≡ length job.args =
        ap (λ (k : ℕ). number (upto g (a + 4 + 4 + 4) k)) (sym (four (length job.args)))
        ∙ ap number cut_3.1
        ∙ number-word (length job.args) (omega (arith, fits.args)) in
      record {
        executions = cut_1.0;
        periodical = cut_2.0;
        name_len = ap (λ (k : ℕ). number (upto g k 4)) (omega arith) ∙ cut_3.0;
        args_len = ap (λ (k : ℕ). number (upto g k 4)) (omega arith) ∙ last;
      }

  -- The job is read back as it was written.
  pub read_job-Blocks :
      (add timetodo : ℕ) (job : Job) (f : F)
      → Fits timetodo job
      → add + max_command_size < 2 ^ 32
      → Blocks add timetodo job (λ k. flash.byte k f)
      → read_job flash storage_init word number add f ≡ job
  unfolding read_job
  read_job-Blocks add timetodo job f fits below blocks =
      let g = λ (k : ℕ). flash.byte k f in
      let few = numbers-Figures (add + 4) timetodo job g fits blocks.figures in
      let at : (d : ℕ) → d < max_command_size → (add + d) % u32_mod ≡ add + d =
        λ (d : ℕ) l. ground (arith, below, l) in
      let e_1 : number (upto g (add + 8) 4) ≡ job.periodical =
        ap (λ (k : ℕ). number (upto g k 4)) (omega arith) ∙ few.periodical in
      let e_2 : number (upto g (add + 12) 4) ≡ length job.command =
        ap (λ (k : ℕ). number (upto g k 4)) (omega arith) ∙ few.name_len in
      let e_3 : number (upto g (add + 16) 4) ≡ length job.args =
        ap (λ (k : ℕ). number (upto g k 4)) (omega arith) ∙ few.args_len in
      rw
        (
          at 4 (omega arith),
          at 8 (omega arith),
          at 12 (omega arith),
          at 16 (omega arith),
          at 20 (omega arith),
          at 84 (omega arith),
          few.executions,
          e_1,
          e_2,
          e_3,
          blocks.command,
          blocks.args,
        )
        refl
