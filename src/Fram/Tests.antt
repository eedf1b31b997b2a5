-- ===== src/Fram/Tests.antt =====
-- The theorem on the variables in the FRAM, with a memory as a function from addresses to bytes.
use balloon_suchai_flight_so.Prelude.{ℕ, ◌≡◌, refl, arith, if◌then◌else◌, ◌==◌}
use balloon_suchai_flight_so.Status.Vars.{index}
use balloon_suchai_flight_so.Status.Vars.DatSystem.{dat_obc_opmode, dat_fpl_queue}
use balloon_suchai_flight_so.Status.{copy_2}
use balloon_suchai_flight_so.Flash.Tests.{put_bytes, put-inside, put-outside, clean}
use balloon_suchai_flight_so.Flash.PlanTests.{word, number, number-word}
use balloon_suchai_flight_so.Fram.{Fram, storage_repo_set_value_idx, set_stored_var, get_stored_var}
use balloon_suchai_flight_so.Fram.Variables.{stored_variable_is_kept}

abbrev memory : Fram (ℕ → ℕ)
memory = record {
  byte = λ k m. m k;
  write_data = λ a bs m. put_bytes a bs m;
  written = λ a bs m k l. put-inside a bs m k l;
  kept = λ a bs m k h. put-outside a bs m k h;
}

stored_variable_is_kept_example :
    (get_stored_var memory word number
        (index dat_fpl_queue)
        (set_stored_var memory word number (index dat_obc_opmode) 70000 clean)
      ≡ (if index dat_obc_opmode == index dat_fpl_queue
          then 70000
          else get_stored_var memory word number (index dat_fpl_queue) clean))
    × (get_stored_var memory word number (index dat_obc_opmode) (
          storage_repo_set_value_idx memory word number
            (copy_2 (index dat_obc_opmode))
            3
            (set_stored_var memory word number (index dat_obc_opmode) 70000 clean))
        ≡ 70000)
stored_variable_is_kept_example =
    stored_variable_is_kept memory word number (λ x. refl) number-word (index dat_obc_opmode)
      (index dat_fpl_queue) 70000 (copy_2 (index dat_obc_opmode)) 3 clean (omega arith)
      (omega arith) (omega arith) (omega arith) (omega arith)
