-- ===== src/Payload/InMemory.antt =====
-- A storage in memory, behind the interface of the storages of src/system/repoData.c, for tests.
use balloon_suchai_flight_so.Prelude.{ℕ, Option, some, ◌==◌, if◌then◌else◌}
use balloon_suchai_flight_so.Payload.{Storage}

-- A storage of one payload: the samples by their places.
abbrev pub in_memory : Storage (ℕ → Option ℕ) ℕ
in_memory = record {
  set_payload_data = λ i d p s. (0, λ j. if i == j then some d else s j);
  get_payload_data = λ i p s. s i;
}
