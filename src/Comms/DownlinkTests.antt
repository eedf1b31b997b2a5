-- ===== src/Comms/DownlinkTests.antt =====
-- The theorem on the downlink at a concrete input, with a flash in memory on both sides.
use balloon_suchai_flight_so.Prelude.{ℕ, ◌+◌, ◌-◌, ◌%◌, ◌≡◌, refl, inr, arith, List, some}
use balloon_suchai_flight_so.Prelude.Upto.{upto, length-upto}
use balloon_suchai_flight_so.Commands.Idle.{idle}
use balloon_suchai_flight_so.Status.{IsValid, blank, vote, dat_set_system_var, dat_get_system_var}
use balloon_suchai_flight_so.Status.Vars.{index}
use balloon_suchai_flight_so.Status.Vars.DatSystem.{dat_mem_prs}
use balloon_suchai_flight_so.Payload.{PayloadId, Memory, index_of}
use PayloadId.{prs_sensors}
use balloon_suchai_flight_so.Telemetry.{send_tel_from_to}
use balloon_suchai_flight_so.Flash.SampleStorage.{
  flash_storage, Ready, Inside, flash_keeps, get_inside,
}
use balloon_suchai_flight_so.Flash.Places.{address}
use balloon_suchai_flight_so.Flash.Tests.{in_memory, clean}
use balloon_suchai_flight_so.Comms.Downlink.{receive_all, downlink_stores}

-- One side has three samples of the pressure sensor, whose bytes go by their addresses; the other
-- has an erased flash and none.
abbrev bytes : ℕ → ℕ
bytes k = k % 251

abbrev full : Memory (ℕ → ℕ)
unfolding dat_set_system_var
full = record { buff = dat_set_system_var blank (index dat_mem_prs) 3; store = bytes }

abbrev empty : Memory (ℕ → ℕ)
unfolding dat_set_system_var
empty = record { buff = dat_set_system_var blank (index dat_mem_prs) 0; store = clean }

facts :
    IsValid empty.buff
    × (index_of full.buff prs_sensors ≡ 3)
    × (index_of empty.buff prs_sensors ≡ 0)
unfolding full empty dat_get_system_var vote dat_set_system_var
facts = (refl, refl, refl)

abbrev sample : ℕ → List ℕ
sample i = upto bytes (address prs_sensors i) 16

downlink_stores_example :
    (g' : Memory (ℕ → ℕ)) × (receive_all
        (flash_storage in_memory)
        prs_sensors
        (sample 0)
        (send_tel_from_to (flash_storage in_memory) 0 3 prs_sensors 9 full)
        idle
        empty
      ≡ some g')
    × (index_of g'.buff prs_sensors ≡ index_of empty.buff prs_sensors + (3 - 0))
    × (upto
          (λ k.
            (flash_storage in_memory).get_payload_data
              (index_of empty.buff prs_sensors + k)
              prs_sensors
              g'.store)
          0
          (3 - 0)
        ≡ upto (λ k. some (sample (0 + k))) 0 (3 - 0))
    × ((flash_storage in_memory).get_payload_data 5 prs_sensors g'.store
        ≡ (flash_storage in_memory).get_payload_data 5 prs_sensors empty.store)
unfolding full empty
downlink_stores_example =
    downlink_stores (flash_storage in_memory) (flash_storage in_memory) (Ready in_memory) Inside
      prs_sensors (sample 0) sample 0 3 9 5 idle full empty (omega arith) (omega (arith, facts.1))
      (omega (arith, facts.1))
      (λ i l u. get_inside in_memory i prs_sensors bytes (omega (arith, u)))
      (flash_keeps in_memory (λ a bs g. refl)) (facts.0) (omega (arith, facts.2))
      (λ k l. record {
        inside = omega (arith, l, facts.2);
        long = length-upto bytes (address prs_sensors (0 + k)) 16;
        clean = λ n h. refl;
      })
      (omega arith) (inr (omega (arith, facts.2)))
