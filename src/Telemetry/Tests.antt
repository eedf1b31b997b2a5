-- ===== src/Telemetry/Tests.antt =====
-- The theorems on telemetry at concrete inputs.
use balloon_suchai_flight_so.Prelude.{
  ◌≡◌, refl, arith, zero, suc, ◌-◌, ◌++◌, List, [], ◌∷◌, some, ℕ,
}
use balloon_suchai_flight_so.Prelude.Text.{Text}
use balloon_suchai_flight_so.Status.{blank, IsValid, dat_set_system_var, dat_get_system_var, vote}
use balloon_suchai_flight_so.Status.Vars.{index}
use balloon_suchai_flight_so.Status.Vars.DatSystem.{dat_mem_prs}
use balloon_suchai_flight_so.Payload.{PayloadId, Storage, Memory, index_of, ack_of}
use balloon_suchai_flight_so.Telemetry.{Frame, cmd_ok, tm_set_ack, tm_send_from, tm_send_all}
use balloon_suchai_flight_so.Prelude.Upto.{upto}
use balloon_suchai_flight_so.Telemetry.Frames.{all_samples}
use balloon_suchai_flight_so.Telemetry.Window.{no_sample_lost}
use PayloadId.{prs_sensors}

-- A `sscanf` that reads the pressure payload and four samples.
abbrev reads : Text → Text → List ℕ
reads params fmt = 5 ∷ 4 ∷ []

abbrev ten : Memory (Unit {0})
unfolding dat_set_system_var
ten = record { buff = dat_set_system_var blank (index dat_mem_prs) 10; store = tt }

ten_facts :
    IsValid ten.buff × (ack_of ten.buff prs_sensors ≡ 0) × (index_of ten.buff prs_sensors ≡ 10)
unfolding ten dat_get_system_var vote dat_set_system_var
ten_facts = (refl, refl, refl)

-- A storage that takes no sample, and holds at each place its number.
abbrev no_storage : Storage (Unit {0}) ℕ
no_storage = record { set_payload_data = λ i d p s. (1, s); get_payload_data = λ i p s. some i }

-- A `sscanf` that reads the numbers of the test's own parameters.
abbrev reads_all : Text → Text → List ℕ
reads_all [] fmt = 5 ∷ 3 ∷ 4 ∷ []
reads_all (zero ∷ s) fmt = 5 ∷ 4 ∷ []
reads_all (suc c ∷ s) fmt = 5 ∷ 3 ∷ []

no_sample_lost_example :
    (sent : List (Frame ℕ)) × (rest : List (Frame ℕ)) × (m' : Memory (Unit {0})) × (tm_send_from
        no_storage reads_all []
        (some [])
        3
        ten
      ≡ (cmd_ok, sent))
    × (tm_set_ack reads_all [] (some (0 ∷ [])) 2 ten ≡ (cmd_ok, m'))
    × (tm_send_all no_storage reads_all [] (some (1 ∷ [])) 2 m' ≡ (cmd_ok, rest))
    × (all_samples sent ++ all_samples rest
        ≡ upto
            (λ i. some i)
            (ack_of ten.buff prs_sensors)
            (index_of ten.buff prs_sensors - ack_of ten.buff prs_sensors))
no_sample_lost_example =
    no_sample_lost no_storage reads_all [] [] [] (0 ∷ []) [] (1 ∷ []) 5 3 4 prs_sensors ten refl
      refl refl refl (λ e. omega arith) (omega (arith, ten_facts.1, ten_facts.2))
      (omega (arith, ten_facts.2)) (omega (arith, ten_facts.1)) (ten_facts.0)
