-- ===== src/Scheduler/Runs.antt =====
-- What a turn of src/system/taskFlightPlan.c sends.
use mathlib.Core.Option.{bind}
use balloon_suchai_flight_so.Prelude.{
  ℕ, zero, suc, ◌<◌, ◌≡◌, ◌≢◌, refl, ◌∙◌, List, [], ◌++◌, ◌+◌, length, subst, lt→ltb, Option, some,
  arith, ◌==◌, if◌then◌else◌, ◌^◌, false,
}
use balloon_suchai_flight_so.Prelude.Words.{add_32}
use balloon_suchai_flight_so.Prelude.Text.{Text}
use balloon_suchai_flight_so.Commands.{Cmd, Repo, cmd_get_str}
use balloon_suchai_flight_so.Commands.Params.{
  cmd_add_params_str, fix_fmt, commas_to_spaces, stepped_over, max_str_params,
}
use balloon_suchai_flight_so.Status.{Buff, IsValid, dat_set_system_var, dat_get_system_var}
use balloon_suchai_flight_so.Status.Vars.{index, dat_system_last_var}
use balloon_suchai_flight_so.Status.Vars.DatSystem.{dat_fpl_last}
use balloon_suchai_flight_so.Status.Access.{get-set_system_var, dat_set_system_var-IsValid}
use balloon_suchai_flight_so.FlightPlan.{
  Str, text, null, freed, Plan, Table, str_size, done, blocked, dat_get_fp,
}
use balloon_suchai_flight_so.FlightPlan.Slots.{
  text_of, find-due, find-Owned, Owned, Timed, pending, due, AllSound,
}
use balloon_suchai_flight_so.FlightPlan.Runs.{bind_done, bind_blocked}
use balloon_suchai_flight_so.FlightPlan.Schedule.{get_fp_runs}
use balloon_suchai_flight_so.FlightPlan.Locking.{held-Blocks, get}
use balloon_suchai_flight_so.Comms.{send_if}
use balloon_suchai_flight_so.Scheduler.{send_rounds, turns, second}

-- The same command a number of times, or none where there is no such command.
unfoldable pub copies : ℕ → Option Cmd → List Cmd
copies zero c = []
copies (suc n) c = send_if c (copies n c)

send_rounds_lem :
    (t : ℕ) (command fixed_args : Text) (r : Repo) (c : Option Cmd) (n : ℕ) (b : Buff)
    → cmd_get_str command r ≡ some c
    → IsValid b
    → (b' : Buff) × (send_rounds t command fixed_args r n b
        ≡ some (copies n (cmd_add_params_str c fixed_args), b'))
      × IsValid b'
      × ((j : ℕ)
          → j < dat_system_last_var
          → dat_get_system_var b' j ≡ (
              if n == 0
              then dat_get_system_var b j
              else if index dat_fpl_last == j
              then t
              else dat_get_system_var b j))
unfolding send_rounds copies bind
send_rounds_lem t command fixed_args r c zero b e v = (b, refl, v, λ j h. refl)
send_rounds_lem t command fixed_args r c (suc n) b e v =
    let b_1 = dat_set_system_var b (index dat_fpl_last) t in
    let v_1 = dat_set_system_var-IsValid b (index dat_fpl_last) t v in
    let (b', f, v', g) = send_rounds_lem t command fixed_args r c n b_1 e v_1 in
    (
      b',
      rw (e, f) refl,
      v',
      λ j h.
          g j h ∙ ground (arith, get-set_system_var b (index dat_fpl_last) j t v (omega arith) h),
    )

fix_fmt-short :
    (junk : ℕ) (s : Text)
    → length s + 1 < max_str_params
    → fix_fmt junk s ≡ some (commas_to_spaces s ++ stepped_over junk)
unfolding fix_fmt
fix_fmt-short junk s h = rw (lt→ltb (length s + 1) max_str_params h) refl

Owned-length : (x : Str) → Owned x → length (text_of x) < str_size
Owned-length (text t) h = h
Owned-length null h = absurd h
Owned-length freed h = absurd h

-- The arguments of a job that waits are shorter than the 50 bytes of its slot.
due-short :
    (t : ℕ) (table : Table) (j : Timed)
    → t ≢ 0
    → AllSound table
    → due t (pending table) ≡ some j
    → length j.args < str_size
due-short t table j nz sound h =
    let (s, q, e) = find-due t table nz h in
    let own = find-Owned t table nz sound q in
    subst (λ (k : Timed). length k.args < str_size) e (Owned-length s.args own.1)

-- With the mutex free, sound slots, a buffer of 171 slots, times that are not 0 and fit in 32 bits,
-- and a job due whose name the command repository can look up: the turn sends the job's command with
-- its arguments, the commas made spaces, and behind them the byte that `fix_fmt` left as `malloc`
-- gave it where it is not 0, as often as the job says (not at all where there is no such command, or
-- where the number is not positive), and writes the time as the last execution where it is; every
-- other variable stays. But the table's mutex stays taken, and the next turn never ends, at any time.
pub due_job_is_sent :
    (junk junk' t t' : ℕ) (p : Plan) (j : Timed) (r : Repo) (b : Buff) (c : Option Cmd) (i : ℕ)
    → p.held ≡ false
    → t ≢ 0
    → t < 2 ^ 32
    → j.periodical < 2 ^ 32
    → add_32 t j.periodical ≢ 0
    → AllSound p.data_base
    → due t (pending p.data_base) ≡ some j
    → cmd_get_str j.command r ≡ some c
    → IsValid b
    → i < dat_system_last_var
    → (b' : Buff) × (p' : Plan) × (second junk t r b p
        ≡ done (
          (
            copies
                (turns j.executions)
                (cmd_add_params_str c (commas_to_spaces j.args ++ stepped_over junk)),
            b',
          ),
          p',
        ))
      × (dat_get_system_var b' i ≡ (
          if turns j.executions == 0
          then dat_get_system_var b i
          else if index dat_fpl_last == i
          then t
          else dat_get_system_var b i))
      × (second junk' t' r b' p' ≡ blocked)
unfolding second
due_job_is_sent junk junk' t t' p j r b c i free nz ht hp next sound h e v hi =
    let (p', runs, held, _, _) = get_fp_runs t p j free nz ht hp next sound h in
    let (b', sent, _, vars) =
      send_rounds_lem t j.command (commas_to_spaces j.args ++ stepped_over junk) r c
        (turns j.executions) b e v in
    let short : length j.args < str_size = due-short t p.data_base j nz sound h in
    let fixed = fix_fmt-short junk j.args (omega (arith, short)) in
    (
      b',
      p',
      bind_done (dat_get_fp t) _ p runs ∙ rw (fixed, sent) refl,
      vars i hi,
      bind_blocked (dat_get_fp t') _ p' (held-Blocks (get t') p' held),
    )
