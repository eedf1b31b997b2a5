-- ===== src/Comms/Storing.antt =====
-- What a run of `dat_add_payload_sample` of src/system/repoData.c leaves.
use balloon_suchai_flight_so.Prelude.{
  ℕ, zero, suc, ◌+◌, ◌<◌, ◌≤◌, ◌≡◌, refl, ap, sym, ◌⊎◌, inl, inr, ◌∙◌, List, [], ◌∷◌, ◌++◌, some,
  arith, length, subst, get_or,
}
use balloon_suchai_flight_so.Prelude.Words.{add_32, int_max}
use balloon_suchai_flight_so.Status.{IsValid, dat_set_system_var}
use balloon_suchai_flight_so.Status.Vars.{index}
use balloon_suchai_flight_so.Status.Access.{get-set_system_var, dat_set_system_var-IsValid}
use balloon_suchai_flight_so.Payload.{
  PayloadId, Storage, Keeps, Memory, data_map, index_of, dat_add_payload_sample,
}
use balloon_suchai_flight_so.Payload.Recent.{index_small}

module _ {S D : Type 0} (storage : Storage S D) (p : PayloadId) where
  -- Each sample added in turn.
  unfoldable pub add_all : List D → Memory S → Memory S
  add_all [] m = m
  add_all (d ∷ ds) m = add_all ds ((dat_add_payload_sample storage d p m).1)

  pub add_all-append :
      (ds es : List D) (m : Memory S) → add_all (ds ++ es) m ≡ add_all es (add_all ds m)
  unfolding add_all
  add_all-append [] es m = refl
  add_all-append (d ∷ ds) es m = add_all-append ds es ((dat_add_payload_sample storage d p m).1)

module _ {S D : Type 0} (storage : Storage S D) (Ready : ℕ → D → PayloadId → S → Type 0)
    (Place : ℕ → PayloadId → Type 0) (p : PayloadId) where
  -- The places from `i` on take the samples.
  abbrev pub ReadyFrom : ℕ → List D → S → Type 0
  ReadyFrom i ds s = (k : ℕ) (e : D) → k < length ds → Ready (i + k) (get_or ds k e) p s

  -- What holds of a memory after the samples `ds` were added to `m`.
  pub record Grown (ds : List D) (m m' : Memory S) : Type 0 where
    pub valid : IsValid m'.buff
    pub counted : index_of m'.buff p ≡ index_of m.buff p + length ds
    pub added :
        (k : ℕ) (d : D)
        → k < length ds
        → storage.get_payload_data (index_of m.buff p + k) p m'.store ≡ some (get_or ds k d)
    pub others :
        (j : ℕ)
        → Place j p
        → (j < index_of m.buff p) ⊎ (index_of m.buff p + length ds ≤ j)
        → storage.get_payload_data j p m'.store ≡ storage.get_payload_data j p m.store

  only : (d : D) (j : ℕ) (e : D) → j < length (d ∷ []) → some d ≡ some (get_or (d ∷ []) j e)
  only d zero e l = refl
  only d (suc j) e l = absurd (omega arith)

  one-added :
      (d : D) (m : Memory S)
      → Keeps storage Ready Place
      → index_of m.buff p < int_max
      → Ready (index_of m.buff p) d p m.store
      → (dat_add_payload_sample storage d p m).1 ≡ record {
        buff = dat_set_system_var m.buff (index ((data_map p).sys_index)) (index_of m.buff p + 1);
        store = (storage.set_payload_data (index_of m.buff p) d p m.store).1;
      }
  unfolding dat_add_payload_sample
  one-added d m keeps h ready =
      let ok = keeps.taken (index_of m.buff p) d p m.store ready in
      let next : add_32 (index_of m.buff p) 1 ≡ index_of m.buff p + 1 = ground arith in
      rw (ok, next) refl

  one-Grown :
      (d : D) (m : Memory S)
      → Keeps storage Ready Place
      → IsValid m.buff
      → index_of m.buff p < int_max
      → Ready (index_of m.buff p) d p m.store
      → Grown (d ∷ []) m ((dat_add_payload_sample storage d p m).1)
  one-Grown d m keeps v h ready =
      let i = index_of m.buff p in
      let k = index ((data_map p).sys_index) in
      let s : S = (storage.set_payload_data i d p m.store).1 in
      let m' : Memory S = record { buff = dat_set_system_var m.buff k (i + 1); store = s } in
      let index' : index_of m'.buff p ≡ i + 1 =
        get-set_system_var m.buff k k (i + 1) v (index_small p) (index_small p) ∙ ground arith in
      subst (Grown (d ∷ []) m) (sym (one-added d m keeps h ready)) (record {
        valid = dat_set_system_var-IsValid m.buff k (i + 1) v;
        counted = index';
        added = λ j e l.
            ap (λ x. storage.get_payload_data x p s) (omega (arith, l))
            ∙ keeps.stored i d p m.store ready
            ∙ only d j e l;
        others = λ j place apart. keeps.kept i j d p m.store ready place (elim apart [
          | inl low ↦ λ e. omega (arith, low, e)
          | inr high ↦ λ e. omega (arith, high, e)
        ]);
      })

  -- The places behind the one just written are as ready as they were.
  ReadyFrom-add :
      (d : D) (ds : List D) (m : Memory S)
      → Keeps storage Ready Place
      → index_of m.buff p < int_max
      → ReadyFrom (index_of m.buff p) (d ∷ ds) m.store
      → index_of ((dat_add_payload_sample storage d p m).1).buff p ≡ index_of m.buff p + 1
      → ReadyFrom
          (index_of ((dat_add_payload_sample storage d p m).1).buff p)
          ds
          ((dat_add_payload_sample storage d p m).1).store
  ReadyFrom-add d ds m keeps h ready index' k e l =
      let i = index_of m.buff p in
      let here : Ready i d p m.store =
        subst (λ (x : ℕ). Ready x d p m.store) (omega arith) (ready 0 e (omega arith)) in
      let there : Ready (i + 1 + k) (get_or ds k e) p m.store =
        subst (λ (x : ℕ). Ready x (get_or ds k e) p m.store) (omega arith)
          (ready (suc k) e (omega (arith, l))) in
      let still =
        keeps.still_ready i (i + 1 + k) d (get_or ds k e) p m.store here there
          (λ same. omega (arith, same)) in
      subst (λ (x : ℕ). Ready x (get_or ds k e) p ((dat_add_payload_sample storage d p m).1).store)
        (omega (arith, index'))
        (subst (λ (m' : Memory S). Ready (i + 1 + k) (get_or ds k e) p m'.store)
          (sym (one-added d m keeps h here)) still)

  added-cons :
      (d : D) (ds : List D) (m m_1 m_2 : Memory S)
      → Grown (d ∷ []) m m_1
      → Grown ds m_1 m_2
      → Place (index_of m.buff p) p
      → (k : ℕ) (e : D) → k < length (d ∷ ds)
      → storage.get_payload_data (index_of m.buff p + k) p m_2.store ≡ some (get_or (d ∷ ds) k e)
  added-cons d ds m m_1 m_2 g g' place zero e l =
      ap (λ (x : ℕ). storage.get_payload_data x p m_2.store) (omega arith)
      ∙ g'.others (index_of m.buff p) place (inl (omega (arith, g.counted)))
      ∙ ap (λ (x : ℕ). storage.get_payload_data x p m_1.store) (omega arith)
      ∙ g.added 0 e (omega arith)
  added-cons d ds m m_1 m_2 g g' place (suc k) e l =
      let place : index_of m.buff p + suc k ≡ index_of m_1.buff p + k = omega (arith, g.counted) in
      ap (λ x. storage.get_payload_data x p m_2.store) place ∙ g'.added k e (omega arith)

  pub add_all-Grown :
      (ds : List D) (m : Memory S)
      → Keeps storage Ready Place
      → IsValid m.buff
      → index_of m.buff p + length ds ≤ int_max
      → ReadyFrom (index_of m.buff p) ds m.store
      → Grown ds m (add_all storage p ds m)
  unfolding add_all
  add_all-Grown [] m keeps v h ready = record {
    valid = v;
    counted = omega arith;
    added = λ k d l. absurd (omega arith);
    others = λ j place apart. refl;
  }
  add_all-Grown (d ∷ ds) m keeps v h ready =
      let m_1 = (dat_add_payload_sample storage d p m).1 in
      let here : Ready (index_of m.buff p) d p m.store =
        subst (λ (x : ℕ). Ready x d p m.store) (omega arith) (ready 0 d (omega arith)) in
      let g = one-Grown d m keeps v (omega arith) here in
      let one : index_of m_1.buff p ≡ index_of m.buff p + 1 = omega (arith, g.counted) in
      let g' =
        add_all-Grown ds m_1 keeps g.valid (omega (arith, one))
          (ReadyFrom-add d ds m keeps (omega arith) ready one) in
      record {
        valid = g'.valid;
        counted = omega (arith, one, g'.counted);
        added =
            added-cons d ds m m_1 (add_all storage p ds m_1) g g'
              (keeps.ready_place (index_of m.buff p) d p m.store here);
        others = λ j place apart. elim apart [
          | inl low ↦ g'.others j place (inl (omega (arith, one, low))) ∙ g.others j place (inl low)
          | inr high ↦
              g'.others j place (inr (omega (arith, one, high)))
              ∙ g.others j place (inr (omega (arith, high)))
        ];
      }
