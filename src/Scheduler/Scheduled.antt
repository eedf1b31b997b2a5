-- ===== src/Scheduler/Scheduled.antt =====
-- From `fp_set` of src/system/cmdFP.c to the turn of src/system/taskFlightPlan.c that sends.
use balloon_suchai_flight_so.Prelude.{
  ℕ, ◌<◌, ◌^◌, ◌≡◌, ◌≢◌, inr, refl, ap, ◌∙◌, List, [], ◌∷◌, ◌++◌, none, some, arith, length, false,
  true, Option, sym, ◌==◌,
}
use balloon_suchai_flight_so.Prelude.Words.{add_32}
use balloon_suchai_flight_so.Prelude.Text.{Text}
use balloon_suchai_flight_so.Commands.{Cmd, Repo, cmd_get_str}
use balloon_suchai_flight_so.Commands.Params.{cmd_add_params_str, commas_to_spaces, stepped_over}
use balloon_suchai_flight_so.Status.{Buff, IsValid}
use balloon_suchai_flight_so.FlightPlan.{
  Plan, FpEntry, Table, Job, done, str_size, fill_free, new_slot, dat_set_fp, dat_set_fp_async,
}
use balloon_suchai_flight_so.FlightPlan.Slots.{
  Timed, Fill, fill_free-Fill, pending-used, pending, due, free_slots, job_of, AllSound,
  fill_free-some, fill_free-AllSound,
}
use Fill.{hit, miss}
use balloon_suchai_flight_so.FlightPlan.Runs.{bind_done, guarded_done, set_async_room}
use balloon_suchai_flight_so.Scheduler.{Tm, Date, tm_of, fp_set, second, turns}
use balloon_suchai_flight_so.Scheduler.Runs.{copies, due_job_is_sent}

due-miss :
    (t : ℕ) (j : Timed) (jobs : List Timed)
    → due t (j ∷ jobs) ≡ none
    → ((t == j.time) ≡ false) × (due t jobs ≡ none)
unfolding due
due-miss t j jobs h = (ground (arith, h), ground (arith, h))

-- A job put into a table that has none of its time is the one that is due.
due-fill_free :
    (e : FpEntry) (table : Table) {table' : Table}
    → e.unixtime ≢ 0
    → due e.unixtime (pending table) ≡ none
    → fill_free e table ≡ some table'
    → due e.unixtime (pending table') ≡ some (job_of e)
unfolding due fill_free
due-fill_free e [] nz h q = cc
due-fill_free e (s ∷ table) nz h q = elim (fill_free-Fill e s table q) [
  | hit z same ↦ rw (same, pending-used e table nz) (ground arith)
  | miss rest used r same ↦
      let before : due e.unixtime (job_of s ∷ pending table) ≡ none =
        ap (due e.unixtime) (sym (pending-used s table used)) ∙ h in
      let (other, later) = due-miss e.unixtime (job_of s) (pending table) before in
      rw (same, pending-used s rest used, other) (due-fill_free e table nz later r)
]

set_fp_done :
    (t : ℕ) (c a : Text) (n d : ℕ) (p : Plan) (table : Table)
    → p.held ≡ false
    → length c < str_size
    → length a < str_size
    → fill_free (new_slot t c a n d) p.data_base ≡ some table
    → dat_set_fp t c a n d p ≡ done (0, record { data_base = table; held = false })
unfolding dat_set_fp
set_fp_done t c a n d p table free hc ha q =
    guarded_done (dat_set_fp_async t c a n d) p free
      (set_async_room t c a n d (record p { held = true }) hc ha q)

-- With the mutex free, sound slots, a free one among them and no job at the time that `mktime` makes of the date,
-- times that are not 0 and fit in 32 bits, strings shorter than 50 bytes, a command that the repository
-- can look up and a buffer of 171 slots: `fp_set`, where `sscanf` reads its ten arguments, gives CMD_OK, and
-- the task's turn at that time sends, as often as asked, the command with the arguments given, its
-- commas made spaces, and behind them the byte that `fix_fmt` left as `malloc` gave it where it is
-- not 0.
pub scheduled_command_is_sent :
    (mktime : Tm → ℕ) (sscanf : Text → Text → ℕ × Date × Job) (fmt params : Text) (date : Date)
    (job : Job) (junk t : ℕ) (p : Plan) (r : Repo) (b : Buff) (c : Option Cmd)
    → sscanf params fmt ≡ (10, date, job)
    → mktime (tm_of 0 date) ≡ t
    → p.held ≡ false
    → t ≢ 0
    → t < 2 ^ 32
    → job.periodical < 2 ^ 32
    → add_32 t job.periodical ≢ 0
    → AllSound p.data_base
    → 0 < free_slots p.data_base
    → due t (pending p.data_base) ≡ none
    → length job.command < str_size
    → length job.args < str_size
    → cmd_get_str job.command r ≡ some c
    → IsValid b
    → (p_1 : Plan) × (b' : Buff) × (p_2 : Plan) × (fp_set mktime sscanf fmt (some params) 10 p
        ≡ done (1, p_1))
      × (second junk t r b p_1
          ≡ done (
            (
              copies
                  (turns job.executions)
                  (cmd_add_params_str c (commas_to_spaces job.args ++ stepped_over junk)),
              b',
            ),
            p_2,
          ))
unfolding fp_set
scheduled_command_is_sent mktime sscanf fmt params date job junk t p r b c scanned time free nz ht
      hp next sound room unused hc ha known v =
    let e = new_slot t job.command job.args job.executions job.periodical in
    let (table, q) = fill_free-some e p.data_base room in
    let p_1 : Plan = record { data_base = table; held = false } in
    let (b', p_2, sent, _, _) =
      due_job_is_sent junk junk t t p_1 (job_of e) r b c 0 refl nz ht hp next
        (fill_free-AllSound e p.data_base (inr (hc, ha)) sound q)
        (due-fill_free e p.data_base nz unused q) known v (omega arith) in
    (
      p_1,
      b',
      p_2,
      rw (scanned, time)
          (bind_done (dat_set_fp t job.command job.args job.executions job.periodical) _ p (
            set_fp_done t job.command job.args job.executions job.periodical p table free hc ha q)),
      sent,
    )
