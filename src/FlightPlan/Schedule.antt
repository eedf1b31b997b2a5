-- ===== src/FlightPlan/Schedule.antt =====
-- The operations of the flight plan of src/system/repoData.c against the jobs that wait in it.
use balloon_suchai_flight_so.Prelude.{
  ℕ, ◌<◌, ◌≡◌, ◌≢◌, inl, inr, refl, ap, ◌∙◌, subst, true, false, List, [], ◌∷◌, ◌++◌, none, some,
  arith, ltb, if◌then◌else◌, length, Perm, Bool-cases, ◌&&◌, ◌^◌,
}
use mathlib.Core.List.Perm
use balloon_suchai_flight_so.Prelude.Words.{add_32, slt}
use balloon_suchai_flight_so.Prelude.Text.{Text}
use balloon_suchai_flight_so.FlightPlan.{
  FpEntry, Table, Plan, done, ◌>>=◌, pure, str_size, take_sem, find, clear, new_slot, copy_out,
  reschedule, dat_set_fp_async, dat_del_fp_async, dat_get_fp_locked, dat_get_fp, dat_set_fp,
  dat_del_fp,
}
use balloon_suchai_flight_so.FlightPlan.Runs.{
  bind_done, take_free, set_async_full, set_async_room, del_async_none, del_async_found, fetched,
  copy_out-Owned, Owned-length, guarded_done,
}
use balloon_suchai_flight_so.FlightPlan.Slots.{
  Timed, job_of, text_of, pending, free_slots, Owned, AllSound, due, fill_free-some,
  pending-fill_free, fill_free-AllSound, find-fill_free, find-some, pending-clear, clear-AllSound,
  find-due, find-Owned, find-none-due,
}

abbrev pub timed : ℕ → Text → Text → ℕ → ℕ → Timed
timed t command args executions periodical = record {
  time = t;
  command = command;
  args = args;
  executions = executions;
  periodical = periodical;
}

-- With the mutex free, sound slots, a free one among them, a time that is not 0 and strings shorter
-- than 50 bytes, `dat_set_fp` returns 0, adds exactly its job, and gives the mutex back.
pub set_fp_adds :
    (t : ℕ) (command args : Text) (executions periodical : ℕ) (p : Plan)
    → p.held ≡ false
    → t ≢ 0
    → AllSound p.data_base
    → length command < str_size
    → length args < str_size
    → 0 < free_slots p.data_base
    → (p' : Plan) × (dat_set_fp t command args executions periodical p ≡ done (0, p'))
      × (p'.held ≡ false)
      × AllSound p'.data_base
      × Perm
          (pending p'.data_base)
          (timed t command args executions periodical ∷ pending p.data_base)
unfolding dat_set_fp
set_fp_adds t c a e d p free nz sound hc ha room =
    let s = new_slot t c a e d in
    let (table, q) = fill_free-some s p.data_base room in
    (
      record { data_base = table; held = false },
      guarded_done (dat_set_fp_async t c a e d) p free
          (set_async_room t c a e d (record p { held = true }) hc ha q),
      refl,
      fill_free-AllSound s p.data_base (inr (hc, ha)) sound q,
      pending-fill_free s p.data_base nz q,
    )

-- With the mutex free and no free slot, `dat_set_fp` returns 1 and changes nothing.
set_fp_full :
    (t : ℕ) (command args : Text) (executions periodical : ℕ) (p : Plan)
    → p.held ≡ false
    → free_slots p.data_base ≡ 0
    → dat_set_fp t command args executions periodical p ≡ done (1, p)
unfolding dat_set_fp
set_fp_full t c a e d p free full =
    guarded_done (dat_set_fp_async t c a e d) p free
      (set_async_full t c a e d (record p { held = true }) full)
    ∙ ground arith

-- With the mutex free, sound slots and a time that is not 0, `dat_del_fp` deletes the first waiting
-- job of that time, where there is one, and returns 0; the slots stay sound and the mutex is given
-- back.
pub del_fp_deletes :
    (t : ℕ) (p : Plan) (j : Timed)
    → p.held ≡ false
    → t ≢ 0
    → AllSound p.data_base
    → due t (pending p.data_base) ≡ some j
    → (p' : Plan) × (dat_del_fp t p ≡ done (0, p'))
      × (p'.held ≡ false)
      × AllSound p'.data_base
      × Perm (pending p.data_base) (j ∷ pending p'.data_base)
unfolding dat_del_fp
del_fp_deletes t p j free nz sound h =
    let (s, q, e) = find-due t p.data_base nz h in
    (
      record { data_base = clear t p.data_base; held = false },
      guarded_done (dat_del_fp_async t) p free
          (del_async_found t (record p { held = true }) (find-Owned t p.data_base nz sound q) q),
      refl,
      clear-AllSound t p.data_base sound,
      subst (λ k. Perm (pending p.data_base) (k ∷ pending (clear t p.data_base))) e
          (pending-clear t p.data_base nz q),
    )

-- With the mutex free and a time that is not 0 and that no waiting job has, `dat_del_fp` returns 1
-- and changes nothing.
del_fp_absent :
    (t : ℕ) (p : Plan)
    → p.held ≡ false
    → t ≢ 0
    → due t (pending p.data_base) ≡ none
    → dat_del_fp t p ≡ done (1, p)
unfolding dat_del_fp
del_fp_absent t p free nz h =
    guarded_done (dat_del_fp_async t) p free
      (del_async_none t (record p { held = true }) (find-none-due t p.data_base nz h))
    ∙ ground arith

-- The copy of a periodic job that `dat_get_fp` puts back: at the next time, if a slot is free
-- while the old entry still takes one.
abbrev pub carried : Timed → Table → List Timed
carried j table =
    if slt 0 j.periodical && ltb 0 (free_slots table)
    then record j { time = add_32 j.time j.periodical } ∷ []
    else []

-- What the two steps of `dat_get_fp` before the deletion leave.
record Rescheduled (s : FpEntry) (p : Plan) (table : Table) : Type 0 where
  runs :
      (rc : ℕ) × (reschedule s.unixtime (fetched (job_of s)) p
        ≡ done (rc, record p { data_base = table }))
  sound : AllSound table
  same : find s.unixtime table ≡ find s.unixtime p.data_base
  jobs : Perm (pending table) (carried (job_of s) p.data_base ++ pending p.data_base)

reschedule-Rescheduled :
    (s : FpEntry) (p : Plan)
    → AllSound p.data_base
    → Owned s.cmd × Owned s.args
    → s.unixtime ≢ 0
    → s.unixtime < 2 ^ 32
    → s.periodical < 2 ^ 32
    → add_32 s.unixtime s.periodical ≢ 0
    → (table : Table) × Rescheduled s p table
unfolding reschedule
reschedule-Rescheduled s p sound own nz ht hp next = elim (Bool-cases (slt 0 s.periodical)) [
  | inr once ↦ (
    p.data_base,
    record { runs = (0, rw once refl); sound = sound; same = refl; jobs = rw once (Perm.refl _) },
  )
  | inl again ↦ elim (Bool-cases (ltb 0 (free_slots p.data_base))) [
    | inr full ↦ (
      p.data_base,
      record {
        runs = (1, rw again (set_async_full _ _ _ _ _ p (ground arith)));
        sound = sound;
        same = refl;
        jobs = rw (again, full) (Perm.refl _);
      },
    )
    | inl room ↦
        let e =
          new_slot (add_32 s.unixtime s.periodical) (text_of s.cmd) (text_of s.args) s.executions
            s.periodical in
        let (table, q) = fill_free-some e p.data_base (ground arith) in
        let hc = Owned-length s.cmd own.0 in
        let ha = Owned-length s.args own.1 in
        (
          table,
          record {
            runs = (0, rw again (set_async_room _ _ _ _ _ p hc ha q));
            sound = fill_free-AllSound e p.data_base (inr (hc, ha)) sound q;
            same = find-fill_free e p.data_base s.unixtime (ground arith) nz q;
            jobs = rw (again, room) (pending-fill_free e p.data_base next q);
          },
        )
  ]
]

locked_found :
    (t : ℕ) (p : Plan) {s : FpEntry}
    → find t p.data_base ≡ some s
    → dat_get_fp_locked t p
      ≡ (copy_out s >>= λ job.
            reschedule t job >>= λ _. dat_del_fp_async t >>= λ _. pure (some job))
          p
unfolding dat_get_fp_locked
locked_found t p q = rw (q, dat_get_fp_locked) refl

-- The unguarded part of `dat_get_fp` on a slot that owns its strings.
locked_runs :
    (s : FpEntry) (p : Plan) (table : Table)
    → Owned s.cmd × Owned s.args
    → find s.unixtime p.data_base ≡ some s
    → Rescheduled s p table
    → dat_get_fp_locked s.unixtime p
      ≡ done (some (fetched (job_of s)), record p { data_base = clear s.unixtime table })
locked_runs s p table own q r =
    let job = fetched (job_of s) in
    locked_found s.unixtime p q
    ∙ bind_done (copy_out s) _ p (copy_out-Owned s p own)
    ∙ bind_done (reschedule s.unixtime job) _ p r.runs.1
    ∙ bind_done (dat_del_fp_async s.unixtime) _ (record p { data_base = table })
        (del_async_found s.unixtime (record p { data_base = table }) own (r.same ∙ q))

-- What `dat_get_fp` at time `t` does with the job `j`.
abbrev GetsJob : Plan → ℕ → Timed → Type 0
GetsJob p t j =
    (p' : Plan) × (dat_get_fp t p ≡ done (some (fetched j), p'))
    × (p'.held ≡ true)
    × AllSound p'.data_base
    × Perm (j ∷ pending p'.data_base) (carried j p.data_base ++ pending p.data_base)

get_fp_slot :
    (s : FpEntry) (p : Plan)
    → p.held ≡ false
    → s.unixtime ≢ 0
    → s.unixtime < 2 ^ 32
    → s.periodical < 2 ^ 32
    → add_32 s.unixtime s.periodical ≢ 0
    → AllSound p.data_base
    → Owned s.cmd × Owned s.args
    → find s.unixtime p.data_base ≡ some s
    → GetsJob p s.unixtime (job_of s)
unfolding dat_get_fp
get_fp_slot s p free nz ht hp next sound own q =
    let taken : Plan = record p { held = true } in
    let (table, r) = reschedule-Rescheduled s taken sound own nz ht hp next in
    (
      record { data_base = clear s.unixtime table; held = true },
      bind_done take_sem _ p (take_free p free) ∙ locked_runs s taken table own q r,
      refl,
      clear-AllSound s.unixtime table r.sound,
      Perm.trans (Perm.symm (pending-clear s.unixtime table nz (r.same ∙ q))) r.jobs,
    )

-- With the mutex free, sound slots and times that are not 0 and fit in 32 bits, `dat_get_fp` at the
-- time of a waiting job gives that job, deletes it, and puts back the copy of a periodic one if a
-- slot is free. The mutex stays taken.
pub get_fp_runs :
    (t : ℕ) (p : Plan) (j : Timed)
    → p.held ≡ false
    → t ≢ 0
    → t < 2 ^ 32
    → j.periodical < 2 ^ 32
    → add_32 t j.periodical ≢ 0
    → AllSound p.data_base
    → due t (pending p.data_base) ≡ some j
    → (p' : Plan) × (dat_get_fp t p ≡ done (some (fetched j), p'))
      × (p'.held ≡ true)
      × AllSound p'.data_base
      × Perm (j ∷ pending p'.data_base) (carried j p.data_base ++ pending p.data_base)
get_fp_runs t p j free nz ht hp next sound h =
    let (s, q, e) = find-due t p.data_base nz h in
    let at : s.unixtime ≡ t = (find-some t p.data_base sound q).0 in
    let own = find-Owned t p.data_base nz sound q in
    let per : s.periodical ≡ j.periodical = ap (λ (k : Timed). k.periodical) e in
    subst (GetsJob p t) e (
      subst (λ u. GetsJob p u (job_of s)) at
        (get_fp_slot s p free (rw at nz) (rw at ht) (rw per hp) (rw (at, per) next) sound own
          (rw at q)))
