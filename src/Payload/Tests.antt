-- ===== src/Payload/Tests.antt =====
-- The theorem on payload samples, with a flash in memory as the storage.
use balloon_suchai_flight_so.Prelude.{
  ℕ, ◌≡◌, refl, arith, ◌+◌, List, some, ◌==◌, if◌then◌else◌, replicate,
}
use balloon_suchai_flight_so.Status.{blank, IsValid, dat_set_system_var, dat_get_system_var, vote}
use balloon_suchai_flight_so.Payload.{
  PayloadId, Memory, index_of, data_map, dat_add_payload_sample, dat_get_recent_payload_sample,
}
use balloon_suchai_flight_so.Payload.Recent.{add_shifts}
use balloon_suchai_flight_so.Status.Vars.{index}
use balloon_suchai_flight_so.Status.Vars.DatSystem.{dat_mem_prs}
use balloon_suchai_flight_so.Flash.SampleStorage.{flash_storage, Ready, Inside, flash_keeps}
use balloon_suchai_flight_so.Flash.Tests.{in_memory, clean}
use PayloadId.{prs_sensors}

-- An erased flash with no sample of the pressure sensor, the first of which goes to place 0.
abbrev empty : Memory (ℕ → ℕ)
unfolding dat_set_system_var
empty = record { buff = dat_set_system_var blank (index dat_mem_prs) 0; store = clean }

empty_index : index_of empty.buff prs_sensors ≡ 0
unfolding dat_get_system_var vote dat_set_system_var
empty_index = refl

empty-IsValid : IsValid empty.buff
unfolding empty
empty-IsValid = refl

abbrev sevens : List ℕ
sevens = replicate 16 7

add_shifts_example :
    (m' : Memory (ℕ → ℕ)) × (dat_add_payload_sample
        (flash_storage in_memory)
        sevens
        prs_sensors
        empty
      ≡ (index_of empty.buff prs_sensors + 1, m'))
    × (dat_get_recent_payload_sample (flash_storage in_memory) prs_sensors 0 m' ≡ some sevens)
    × (dat_get_recent_payload_sample (flash_storage in_memory) prs_sensors (1 + 1) m'
        ≡ dat_get_recent_payload_sample (flash_storage in_memory) prs_sensors 1 empty)
    × (dat_get_system_var m'.buff 9 ≡ (
        if index ((data_map prs_sensors).sys_index) == 9
        then index_of empty.buff prs_sensors + 1
        else dat_get_system_var empty.buff 9))
unfolding empty
add_shifts_example =
    add_shifts (flash_storage in_memory) (Ready in_memory) Inside sevens prs_sensors empty 1 9
      (flash_keeps in_memory (λ a bs g. refl)) empty-IsValid (omega (arith, empty_index))
      (omega arith) (omega arith)
      (record { inside = omega (arith, empty_index); long = refl; clean = λ k l. refl })
      (λ k l. omega (arith, l, empty_index))
