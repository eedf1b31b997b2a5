-- ===== src/FlightPlan/Runs.antt =====
-- How the parts of an operation of the flight plan of src/system/repoData.c run.
use balloon_suchai_flight_so.Prelude.{
  ℕ, ◌<◌, ◌≡◌, refl, ◌∙◌, true, false, none, some, arith, length, lt→ltb,
}
use balloon_suchai_flight_so.Prelude.Text.{Text}
use balloon_suchai_flight_so.FlightPlan.{
  FpEntry, Table, Plan, done, blocked, fault, M, ◌>>=◌, pure, str_size, take_sem, given_sem,
  fill_free, find, clear, new_slot, Job, copy_out, dat_set_fp_async, dat_del_fp_async, text, null,
  freed, Str,
}
use balloon_suchai_flight_so.FlightPlan.Slots.{
  Timed, job_of, text_of, free_slots, Owned, fill_free-none,
}

pub bind_done :
    {A B : Type 0} (m : M A) (f : A → M B) (p : Plan) {a : A} {q : Plan}
    → m p ≡ done (a, q)
    → (m >>= f) p ≡ f a q
bind_done m f p e = rw (e, ◌>>=◌) refl

pub bind_blocked :
    {A B : Type 0} (m : M A) (f : A → M B) (p : Plan) → m p ≡ blocked → (m >>= f) p ≡ blocked
bind_blocked m f p e = rw (e, ◌>>=◌) refl

pub bind_fault :
    {A B : Type 0} (m : M A) (f : A → M B) (p : Plan) → m p ≡ fault → (m >>= f) p ≡ fault
bind_fault m f p e = rw (e, ◌>>=◌) refl

pub take_free : (p : Plan) → p.held ≡ false → take_sem p ≡ done (tt, record p { held = true })
unfolding take_sem
take_free p e = ground arith

pub take_held : (p : Plan) → p.held ≡ true → take_sem p ≡ blocked
unfolding take_sem
take_held p e = ground arith

pub given_done : (p : Plan) → given_sem p ≡ done (tt, record p { held = false })
unfolding given_sem
given_done p = refl

pub set_async_full :
    (t : ℕ) (c a : Text) (e d : ℕ) (p : Plan)
    → free_slots p.data_base ≡ 0
    → dat_set_fp_async t c a e d p ≡ done (1, p)
unfolding dat_set_fp_async
set_async_full t c a e d p full =
    ground (arith, fill_free-none (new_slot t c a e d) p.data_base full)

pub set_async_room :
    (t : ℕ) (c a : Text) (e d : ℕ) (p : Plan) {table : Table}
    → length c < str_size
    → length a < str_size
    → fill_free (new_slot t c a e d) p.data_base ≡ some table
    → dat_set_fp_async t c a e d p ≡ done (0, record p { data_base = table })
unfolding dat_set_fp_async
set_async_room t c a e d p hc ha q = ground (arith, lt→ltb _ _ hc, lt→ltb _ _ ha)

pub del_async_none :
    (t : ℕ) (p : Plan)
    → find t p.data_base ≡ none
    → dat_del_fp_async t p ≡ done (1, record p { held = false })
unfolding dat_del_fp_async given_sem
del_async_none t p e = ground arith

-- A slot in use that owns its strings.
pub Owned-text : (x : Str) → Owned x → x ≡ text (text_of x)
Owned-text (text t) h = refl
Owned-text null h = absurd h
Owned-text freed h = absurd h

pub del_async_found :
    (t : ℕ) (p : Plan) {s : FpEntry}
    → Owned s.cmd × Owned s.args
    → find t p.data_base ≡ some s
    → dat_del_fp_async t p ≡ done (0, record p { data_base = clear t p.data_base })
unfolding dat_del_fp_async
del_async_found t p {s} own e = ground (arith, Owned-text s.cmd own.0, Owned-text s.args own.1)

abbrev pub fetched : Timed → Job
fetched j = record {
  command = j.command;
  args = j.args;
  executions = j.executions;
  periodical = j.periodical;
}

pub copy_out-Owned :
    (s : FpEntry) (p : Plan)
    → Owned s.cmd × Owned s.args
    → copy_out s p ≡ done (fetched (job_of s), p)
unfolding copy_out
copy_out-Owned s p own = ground (arith, Owned-text s.cmd own.0, Owned-text s.args own.1)

pub Owned-length : (x : Str) → Owned x → length (text_of x) < str_size
Owned-length (text t) h = h
Owned-length null h = absurd h
Owned-length freed h = absurd h

-- `dat_set_fp` and `dat_del_fp` are their unguarded parts between taking and giving the mutex.
abbrev pub guarded : {A : Type 0} → M A → M A
guarded m = take_sem >>= λ _. m >>= λ rc. given_sem >>= λ _. pure rc

pub guarded_done :
    {A : Type 0} (m : M A) (p : Plan) {a : A} {q : Plan}
    → p.held ≡ false
    → m (record p { held = true }) ≡ done (a, q)
    → guarded m p ≡ done (a, record q { held = false })
guarded_done m p {a} {q} free e =
    bind_done take_sem _ p (take_free p free)
    ∙ bind_done m _ (record p { held = true }) e
    ∙ bind_done given_sem _ q (given_done q)
