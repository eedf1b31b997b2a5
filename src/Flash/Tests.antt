-- ===== src/Flash/Tests.antt =====
-- The theorems on src/drivers/nanomind/data_storage.c with a flash in memory.
use balloon_suchai_flight_so.Prelude.{
  ℕ, ◌+◌, ◌-◌, ◌*◌, ◌/◌, ◌<◌, ◌≤◌, ◌≡◌, ◌⊎◌, refl, ap, sym, inl, inr, ◌∙◌, arith, List, [], ◌∷◌,
  none, some, ltb, leb, length, get_or, if◌then◌else◌, ◌&&◌,
}
use balloon_suchai_flight_so.Prelude.Words.{minus_one}
use balloon_suchai_flight_so.Payload.{PayloadId, data_map}
use PayloadId.{dpl_sensors, prs_sensors, fod_sensors}
use balloon_suchai_flight_so.Telemetry.{number_of}
use balloon_suchai_flight_so.Flash.{
  Flash, size_per_section, sections_per_payload, payloads_per_section, blank_byte, storage_init,
  locate, sections_for_fp, fp_max_entries, max_command_size, erase_sections,
  storage_set_payload_data, storage_get_payload_data, storage_delete_memory_sections,
}
use balloon_suchai_flight_so.Flash.Places.{capacity, address, places_are_disjoint}
use balloon_suchai_flight_so.Flash.Samples.{set-get_payload_data, past_the_sections}

-- All flight plan entries fit in one section, but the macro's missing parentheses make the number of
-- sections 14337.
fp_sections :
    (sections_for_fp ≡ 14337) × (fp_max_entries * max_command_size / size_per_section + 1 ≡ 1)
fp_sections = (refl, refl)

-- A flash as a function from addresses to bytes, which a write sets.
abbrev pub put_bytes : ℕ → List ℕ → (ℕ → ℕ) → ℕ → ℕ
put_bytes a bs f k = if leb a k && ltb k (a + length bs) then get_or bs (k - a) 0 else f k

abbrev pub wipe : ℕ → (ℕ → ℕ) → ℕ → ℕ
wipe a f k = if leb a k && ltb k (a + size_per_section) then blank_byte else f k

pub put-inside :
    (a : ℕ) (bs : List ℕ) (f : ℕ → ℕ) (k : ℕ)
    → k < length bs
    → put_bytes a bs f (a + k) ≡ get_or bs k 0
put-inside a bs f k h =
    let back : a + k - a ≡ k = omega arith in
    ap (λ i. if leb a (a + k) && ltb (a + k) (a + length bs) then get_or bs i 0 else f (a + k)) back
    ∙ ground (arith, h)

pub put-outside :
    (a : ℕ) (bs : List ℕ) (f : ℕ → ℕ) (k : ℕ)
    → (k < a) ⊎ (a + length bs ≤ k)
    → put_bytes a bs f k ≡ f k
put-outside a bs f k h = elim h [ inl x ↦ ground (arith, x) | inr x ↦ ground (arith, x) ]

pub wipe-inside :
    (a : ℕ) (f : ℕ → ℕ) (k : ℕ) → a ≤ k → k < a + size_per_section → wipe a f k ≡ blank_byte
wipe-inside a f k h h' = ground arith

pub wipe-outside :
    (a : ℕ) (f : ℕ → ℕ) (k : ℕ) → (k < a) ⊎ (a + size_per_section ≤ k) → wipe a f k ≡ f k
wipe-outside a f k h = elim h [ inl x ↦ ground (arith, x) | inr x ↦ ground (arith, x) ]

abbrev pub in_memory : Flash (ℕ → ℕ)
in_memory = record {
  byte = λ k f. f k;
  write_data = λ a bs f. (0, put_bytes a bs f);
  erase_block = λ a f. (0, wipe a f);
  written = λ a bs f f' k e l b. sym (ap (λ x. x.1 (a + k)) e) ∙ put-inside a bs f k l;
  kept = λ a bs f f' k e h. sym (ap (λ x. x.1 k) e) ∙ put-outside a bs f k h;
  erased = λ a f f' k e l h. sym (ap (λ x. x.1 k) e) ∙ wipe-inside a f k l h;
  spared = λ a f f' k e h. sym (ap (λ x. x.1 k) e) ∙ wipe-outside a f k h;
}

abbrev pub clean : ℕ → ℕ
clean k = 255

abbrev sample : List ℕ
sample = 1 ∷ 2 ∷ 3 ∷ 4 ∷ 5 ∷ 6 ∷ 7 ∷ 8 ∷ []

places_are_disjoint_example :
    (a b : ℕ) × (locate storage_init 65535 dpl_sensors ≡ some (some a))
    × (locate storage_init 0 fod_sensors ≡ some (some b))
    × ((a + (data_map dpl_sensors).size ≤ b) ⊎ (b + (data_map fod_sensors).size ≤ a))
    × (number_of dpl_sensors * sections_per_payload * size_per_section ≤ a)
    × (a + (data_map dpl_sensors).size
        ≤ (number_of dpl_sensors + 1) * sections_per_payload * size_per_section)
    × ((number_of dpl_sensors + 1) * sections_per_payload * size_per_section
        ≤ 16 * size_per_section)
places_are_disjoint_example =
    places_are_disjoint dpl_sensors fod_sensors 65535 0 (omega arith) (omega arith)
      (inr (λ e. omega (arith, e)))

set-get_payload_data_example :
    (storage_set_payload_data in_memory storage_init 40000 sample (number_of dpl_sensors) clean
      ≡ some (0, put_bytes (address dpl_sensors 40000) sample clean))
    × (storage_get_payload_data in_memory storage_init 40000
          (number_of dpl_sensors)
          (put_bytes (address dpl_sensors 40000) sample clean)
        ≡ some (0, sample))
    × (storage_get_payload_data in_memory storage_init 7
          (number_of prs_sensors)
          (put_bytes (address dpl_sensors 40000) sample clean)
        ≡ storage_get_payload_data in_memory storage_init 7 (number_of prs_sensors) clean)
set-get_payload_data_example =
    set-get_payload_data in_memory dpl_sensors prs_sensors 40000 7 sample clean
      (put_bytes (address dpl_sensors 40000) sample clean) (omega arith) (omega arith)
      (inr (λ e. omega (arith, e))) refl (λ k l. refl) refl

past_the_sections_example :
    (storage_set_payload_data in_memory storage_init 70000 sample (number_of dpl_sensors) clean ≡ (
      if ltb
        (number_of dpl_sensors * sections_per_payload + 70000 / payloads_per_section dpl_sensors)
        16
      then some (minus_one, clean)
      else none))
    × (storage_get_payload_data in_memory storage_init 70000 (number_of dpl_sensors) clean ≡ (
        if ltb
          (number_of dpl_sensors * sections_per_payload + 70000 / payloads_per_section dpl_sensors)
          16
        then some (minus_one, [])
        else none))
    × (storage_get_payload_data in_memory storage_init
          (capacity fod_sensors)
          (number_of fod_sensors)
          clean
        ≡ none)
past_the_sections_example =
    past_the_sections in_memory dpl_sensors 70000 sample clean (omega arith) (omega arith)

abbrev dirty : ℕ → ℕ
dirty k = 3

abbrev wiped : ℕ → ℕ
unfolding storage_delete_memory_sections erase_sections storage_init
wiped = (storage_delete_memory_sections in_memory storage_init dirty).1

wiped-done : storage_delete_memory_sections in_memory storage_init dirty ≡ (0, wiped)
unfolding storage_delete_memory_sections erase_sections storage_init wiped
wiped-done = refl
