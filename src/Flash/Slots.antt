-- ===== src/Flash/Slots.antt =====
-- What `flight_plan_erase_index` and `storage_flight_plan_erase` of
-- src/drivers/nanomind/data_storage.c leave.
use balloon_suchai_flight_so.Prelude.{
  ℕ, zero, suc, ◌+◌, ◌*◌, ◌%◌, ◌<◌, ◌≤◌, ◌≡◌, refl, ap, ◌∙◌, arith, ltb, true, Option, some, none,
  length, get_or,
}
use balloon_suchai_flight_so.Prelude.Upto.{get_or-upto, length-upto}
use balloon_suchai_flight_so.Prelude.Words.{u32_mod}
use balloon_suchai_flight_so.Telemetry.{quotient}
use balloon_suchai_flight_so.Flash.{
  Addresses, max_command_size, size_per_section, fp_max_entries, storage_init, remainder,
  sections_for_fp, payload_tables_amount,
}
use balloon_suchai_flight_so.Flash.Plan.{
  slot_address, section_address, rounds_of, commands_per_section,
}

-- Where the first section of the flight plan starts, and its entries.
abbrev pub plan_start : ℕ
plan_start = 16 * size_per_section

abbrev pub slot : ℕ → ℕ
slot i = plan_start + i * max_command_size

section_address-by :
    (addresses : Addresses) (i start : ℕ)
    → ltb i (length addresses.flight_plan) ≡ true
    → get_or addresses.flight_plan i 0 ≡ start
    → section_address addresses i ≡ some start
unfolding section_address
section_address-by addresses i start h e = rw (h, e) refl

pub section_address-first : section_address storage_init 0 ≡ some plan_start
unfolding storage_init
section_address-first =
    let f = λ (i : ℕ). (0 + (payload_tables_amount + i) * 256 * 1024) % u32_mod in
    section_address-by storage_init 0 plan_start (ap (ltb 0) (length-upto f 0 sections_for_fp))
      (get_or-upto f 0 sections_for_fp 0 0 (omega arith))

pub quotient-first : (i : ℕ) → i < fp_max_entries → quotient i commands_per_section ≡ 0
quotient-first i h = ground (arith, h)

pub remainder-first : (i : ℕ) → i < fp_max_entries → remainder i commands_per_section ≡ i
remainder-first i h = ground (arith, h)

slot_address-by :
    (addresses : Addresses) (i q r start : ℕ)
    → quotient i commands_per_section ≡ q
    → remainder i commands_per_section ≡ r
    → section_address addresses q ≡ some start
    → slot_address addresses i ≡ some ((start + r * max_command_size) % u32_mod)
unfolding slot_address
slot_address-by addresses i q r start eq er es =
    ap
      (λ (a : Option ℕ). elim a as (λ x. Option ℕ) [
        | none ↦ none
        | some first ↦
            some ((first + remainder i commands_per_section * max_command_size) % u32_mod)
      ])
      (ap (section_address addresses) eq ∙ es)
    ∙ ap (λ (k : ℕ). some ((start + k * max_command_size) % u32_mod)) er

pub slot_address-slot : (i : ℕ) → i < fp_max_entries → slot_address storage_init i ≡ some (slot i)
slot_address-slot i h =
    slot_address-by storage_init i 0 i plan_start (quotient-first i h) (remainder-first i h)
      section_address-first
    ∙ ap some (ground (arith, h))

pub rounds-few : (n : ℕ) → n ≤ fp_max_entries → rounds_of n ≡ n
rounds-few zero h = refl
rounds-few (suc n) h = ground (arith, h)
