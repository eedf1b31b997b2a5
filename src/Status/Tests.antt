-- ===== src/Status/Tests.antt =====
-- Runs of the status repository, and its theorems at concrete inputs.
use balloon_suchai_flight_so.Prelude.{ℕ, ◌+◌, ◌≡◌, refl, arith, set}
use balloon_suchai_flight_so.Prelude.{get_or-replicate}
use balloon_suchai_flight_so.Prelude.Words.{int_min}
use balloon_suchai_flight_so.Status.{
  blank, IsValid, dat_set_system_var, dat_get_system_var, init_vars, fill_from, vote,
}
use balloon_suchai_flight_so.Status.Vars.{index}
use balloon_suchai_flight_so.Status.Vars.DatSystem.{dat_obc_reset_counter}
use balloon_suchai_flight_so.Status.Access.{get-set_system_var}
use balloon_suchai_flight_so.Status.Faults.{
  IsIntact, start, write, fault, write_repairs, History-masked,
}

blank-IsValid : IsValid blank
blank-IsValid = refl

reset_counter_overflows :
    dat_get_system_var (init_vars blank) (index dat_obc_reset_counter) ≡ int_min
unfolding init_vars fill_from dat_set_system_var dat_get_system_var vote
reset_counter_overflows = refl

blank-IsIntact : IsIntact blank
blank-IsIntact i h = (
  rw (
    get_or-replicate {A = ℕ} 171 (i + 57) 0 0 (omega arith),
    get_or-replicate {A = ℕ} 171 i 0 0 (omega arith),
  ),
  rw (
    get_or-replicate {A = ℕ} 171 (i + 114) 0 0 (omega arith),
    get_or-replicate {A = ℕ} 171 i 0 0 (omega arith),
  ),
)

get-set_system_var_example : dat_get_system_var (dat_set_system_var blank 29 7400) 29 ≡ 7400
get-set_system_var_example =
    get-set_system_var blank 29 29 7400 blank-IsValid (omega arith) (omega arith)

History-masked_example : dat_get_system_var (set (dat_set_system_var blank 29 7400) 86 1) 29 ≡ 7400
History-masked_example = History-masked 29 blank-IsValid blank-IsIntact (omega arith) (
    fault 86 1 (omega arith)
      (write_repairs blank 29 7400 29 blank-IsValid (omega arith) (omega arith)
        (λ ne. absurd (ne refl)))
      (write 29 7400 (omega arith) start))
