-- ===== src/Flash.antt =====
-- The permanent storage of the NanoMind: the payload samples, the status variables and the addresses
-- of src/drivers/nanomind/data_storage.c. The drivers of the NOR flash (spn_fl512s) and of the FRAM
-- (fm33256b) are not part of the repository: they are records of operations and of what their
-- documentation promises. `none` is an access outside an array of addresses. Log lines are left out.
pub mod Places
mod Samples
pub mod SampleStorage
pub mod Plan
mod Rewrite
mod Slots
mod Erase
mod Writes
mod Found
mod Entry
mod Stored
mod Waiting
mod Fetched
pub mod PlanTests
pub mod Tests
use balloon_suchai_flight_so.Prelude.{
  ℕ, zero, suc, ◌+◌, ◌-◌, ◌*◌, ◌/◌, ◌%◌, ◌^◌, ◌≤◌, ◌<◌, ◌≡◌, ◌⊎◌, List, [], ◌∷◌, Option, none, some,
  ltb, ◌==◌, if◌then◌else◌, length, get_or,
}
use balloon_suchai_flight_so.Prelude.Upto.{upto}
use balloon_suchai_flight_so.Prelude.Words.{u32_mod, int_min, add_32, sle, minus_one}
use balloon_suchai_flight_so.Payload.{PayloadId, data_map, payload_of}
use balloon_suchai_flight_so.Telemetry.{quotient, number_of}

-- SCH_SECTIONS_PER_PAYLOAD, and SCH_SIZE_PER_SECTION, which is written 256*1024, without parentheses.
abbrev pub sections_per_payload : ℕ
sections_per_payload = 2

abbrev pub size_per_section : ℕ
size_per_section = 256 * 1024

-- last_sensor, SCH_FP_MAX_ENTRIES, and `max_command_size`: two strings of 64 bytes, the time, and
-- four numbers.
abbrev pub last_sensor : ℕ
last_sensor = 8

abbrev pub fp_max_entries : ℕ
fp_max_entries = 25

abbrev pub max_command_size : ℕ
max_command_size = (64 + 64) * 1 + 4 + 16

-- A byte that is erased.
abbrev pub blank_byte : ℕ
blank_byte = 255

-- The flash: its bytes, and the two operations that change it, with 0 for success. A write that
-- succeeds leaves its bytes where the flash was erased and changes no other place; an erasure that
-- succeeds erases the section that starts at the address, and no more.
pub record Flash (F : Type 0) : Type 0 where
  pub byte : ℕ → F → ℕ
  pub write_data : ℕ → List ℕ → F → ℕ × F
  pub erase_block : ℕ → F → ℕ × F
  pub written :
      (a : ℕ) (bs : List ℕ) (f f' : F) (k : ℕ)
      → write_data a bs f ≡ (0, f')
      → k < length bs
      → byte (a + k) f ≡ blank_byte
      → byte (a + k) f' ≡ get_or bs k 0
  pub kept :
      (a : ℕ) (bs : List ℕ) (f f' : F) (k : ℕ)
      → write_data a bs f ≡ (0, f')
      → (k < a) ⊎ (a + length bs ≤ k)
      → byte k f' ≡ byte k f
  pub erased :
      (a : ℕ) (f f' : F) (k : ℕ)
      → erase_block a f ≡ (0, f')
      → a ≤ k
      → k < a + size_per_section
      → byte k f' ≡ blank_byte
  pub spared :
      (a : ℕ) (f f' : F) (k : ℕ)
      → erase_block a f ≡ (0, f')
      → (k < a) ⊎ (a + size_per_section ≤ k)
      → byte k f' ≡ byte k f

-- `storage_addresses_payloads` and `storage_addresses_flight_plan`.
pub record Addresses : Type 0 where
  pub payloads : List ℕ
  pub flight_plan : List ℕ

abbrev pub payload_tables_amount : ℕ
payload_tables_amount = sections_per_payload * last_sensor

-- `(SCH_FP_MAX_ENTRIES*max_command_size)/SCH_SIZE_PER_SECTION + 1`, as the macro expands.
abbrev pub sections_for_fp : ℕ
sections_for_fp = fp_max_entries * max_command_size / 256 * 1024 + 1

-- The two loops of `storage_init`; SCH_FLASH_INIT_MEMORY is 0.
unfoldable pub storage_init : Addresses
storage_init = record {
  payloads = upto (λ i. (0 + i * 256 * 1024) % u32_mod) 0 payload_tables_amount;
  flight_plan =
      upto (λ i. (0 + (payload_tables_amount + i) * 256 * 1024) % u32_mod) 0 sections_for_fp;
}

-- `n % d` on `int`, by a positive `d`; it has the sign of `n`.
abbrev pub remainder : ℕ → ℕ → ℕ
remainder n d = if ltb n int_min then n % d else (u32_mod - (u32_mod - n) % d) % u32_mod

abbrev pub payloads_per_section : PayloadId → ℕ
payloads_per_section p = size_per_section / (data_map p).size

-- The address of a sample, and whether it is refused; the array is read before the test.
unfoldable pub locate : Addresses → ℕ → PayloadId → Option (Option ℕ)
locate addresses index p =
    let payload_section = quotient index (payloads_per_section p) in
    let index_in_section = remainder index (payloads_per_section p) in
    let section_index = add_32 (number_of p * sections_per_payload) payload_section in
    let add =
      (get_or addresses.payloads section_index 0 + index_in_section * (data_map p).size)
      % u32_mod in
    if ltb section_index (length addresses.payloads)
    then (if sle sections_per_payload payload_section then some none else some (some add))
    else none

module _ {F : Type 0} (flash : Flash F) (addresses : Addresses) where
  -- `spn_fl512s_read_data`
  abbrev pub read_data : ℕ → ℕ → F → List ℕ
  read_data add len f = upto (λ k. flash.byte k f) add len

  unfoldable pub storage_set_payload_data : ℕ → List ℕ → ℕ → F → Option (ℕ × F)
  storage_set_payload_data index sample payload f =
      if sle last_sensor payload then some (minus_one, f) else elim (payload_of payload) [
        | none ↦ none
        | some p ↦ elim (locate addresses index p) [
          | none ↦ none
          | some none ↦ some (minus_one, f)
          | some (some add) ↦
              let (ret, f') = flash.write_data add sample f in
              some (if ret == 0 then 0 else minus_one, f')
        ]
      ]

  -- The result, and the bytes read.
  unfoldable pub storage_get_payload_data : ℕ → ℕ → F → Option (ℕ × List ℕ)
  storage_get_payload_data index payload f =
      if sle last_sensor payload then some (minus_one, []) else elim (payload_of payload) [
        | none ↦ none
        | some p ↦ elim (locate addresses index p) [
          | none ↦ none
          | some none ↦ some (minus_one, [])
          | some (some add) ↦ some (0, read_data add ((data_map p).size) f)
        ]
      ]

  -- The loop from section `i`.
  unfoldable pub erase_sections : ℕ → ℕ → F → ℕ × F
  erase_sections i zero f = (0, f)
  erase_sections i (suc rounds) f =
      let (rc, f') = flash.erase_block (get_or addresses.payloads i 0) f in
      let rest = erase_sections (i + 1) rounds f' in if rc == 0 then rest else (minus_one, f')

  unfoldable pub storage_delete_memory_sections : F → ℕ × F
  storage_delete_memory_sections f = erase_sections 0 payload_tables_amount f
