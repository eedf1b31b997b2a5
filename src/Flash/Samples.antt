-- ===== src/Flash/Samples.antt =====
-- Writing and reading samples with src/drivers/nanomind/data_storage.c, and erasing them.
use balloon_suchai_flight_so.Prelude.{
  ℕ, zero, suc, ◌+◌, ◌*◌, ◌/◌, ◌<◌, ◌≤◌, ◌^◌, ◌≡◌, ◌≢◌, ◌⊎◌, refl, ap, sym, inl, inr, ◌∙◌, arith,
  false, List, [], none, some, ltb, leb, length, get_or, if◌then◌else◌, ◌==◌, Bool-cases, ◌&&◌, ◌%◌,
}
use balloon_suchai_flight_so.Prelude.Upto.{upto, upto-shift, get_or-upto, upto-list}
use balloon_suchai_flight_so.Prelude.Words.{u32_mod, sle, minus_one}
use balloon_suchai_flight_so.Payload.{PayloadId, data_map}
use PayloadId.{
  temp_sensors, ads_sensors, eps_sensors, lang_sensors, gps_sensors, prs_sensors, dpl_sensors,
  fod_sensors,
}
use balloon_suchai_flight_so.Telemetry.{number_of}
use balloon_suchai_flight_so.Flash.{
  Flash, size_per_section, sections_per_payload, payloads_per_section, blank_byte, last_sensor,
  storage_init, read_data, storage_set_payload_data, storage_get_payload_data, erase_sections,
  storage_delete_memory_sections,
}
use balloon_suchai_flight_so.Flash.Places.{
  capacity, address, payload_of-number, locate-inside, locate-outside, sides,
}

known : (p : PayloadId) → sle last_sensor (number_of p) ≡ false
unfolding number_of
known temp_sensors = refl
known ads_sensors = refl
known eps_sensors = refl
known lang_sensors = refl
known gps_sensors = refl
known prs_sensors = refl
known dpl_sensors = refl
known fod_sensors = refl

module _ {F : Type 0} (flash : Flash F) where
  pub set_runs :
      (p : PayloadId) (i : ℕ) (sample : List ℕ) (f f' : F)
      → i < capacity p
      → flash.write_data (address p i) sample f ≡ (0, f')
      → storage_set_payload_data flash storage_init i sample (number_of p) f ≡ some (0, f')
  unfolding storage_set_payload_data
  set_runs p i sample f f' h w = rw (known p, payload_of-number p, locate-inside p i h, w) refl

  pub get_runs :
      (p : PayloadId) (i : ℕ) (f : F)
      → i < capacity p
      → storage_get_payload_data flash storage_init i (number_of p) f
        ≡ some (0, read_data flash storage_init (address p i) ((data_map p).size) f)
  unfolding storage_get_payload_data
  get_runs p i f h = rw (known p, payload_of-number p, locate-inside p i h) refl

  -- For a place within the two sections of its payload that is erased, and a sample of the payload's
  -- size that the flash's driver writes: the write gives 0, a read of the place gives the sample,
  -- and a read of any other place, of any payload, gives what it gave before.
  pub set-get_payload_data :
      (p q : PayloadId) (i j : ℕ) (sample : List ℕ) (f f' : F)
      → i < capacity p
      → j < capacity q
      → (p ≢ q) ⊎ (i ≢ j)
      → length sample ≡ (data_map p).size
      → ((k : ℕ) → k < (data_map p).size → flash.byte (address p i + k) f ≡ blank_byte)
      → flash.write_data (address p i) sample f ≡ (0, f')
      → (storage_set_payload_data flash storage_init i sample (number_of p) f ≡ some (0, f'))
        × (storage_get_payload_data flash storage_init i (number_of p) f' ≡ some (0, sample))
        × (storage_get_payload_data flash storage_init j (number_of q) f'
            ≡ storage_get_payload_data flash storage_init j (number_of q) f)
  set-get_payload_data p q i j sample f f' hi hj ne len clean w =
      let add = address p i in
      let stored =
        upto-list (λ k. flash.byte k f') add sample
          (λ k l. flash.written add sample f f' k w l (clean k (omega (arith, len)))) in
      let other =
        upto-shift (λ k. flash.byte k f') (λ k. flash.byte k f) (address q j) (address q j)
          ((data_map q).size)
          (λ k l. flash.kept add sample f f' (address q j + k) w (elim (sides p q i j hi hj ne) [
            | inl before ↦ inr (omega (arith, before, len))
            | inr behind ↦ inl (omega (arith, behind))
          ])) in
      (
        set_runs p i sample f f' hi w,
        get_runs p i f' hi
            ∙ ap (λ (n : ℕ). some (0, upto (λ k. flash.byte k f') add n)) (sym len)
            ∙ ap (λ (bs : List ℕ). some (0, bs)) stored,
        get_runs q j f' hj ∙ ap (λ (bs : List ℕ). some (0, bs)) other ∙ sym (get_runs q j f hj),
      )

  -- A place past the two sections of its payload, below 2 ^ 31: where the section's number is within
  -- the array of addresses, the write and the read give -1 and the flash stays; where it is not, the
  -- array is read past its end, before the place is refused, as at the first place past the sections
  -- of the last payload.
  pub past_the_sections :
      (p : PayloadId) (i : ℕ) (sample : List ℕ) (f : F)
      → capacity p ≤ i
      → i < 2 ^ 31
      → (storage_set_payload_data flash storage_init i sample (number_of p) f ≡ (
          if ltb (number_of p * sections_per_payload + i / payloads_per_section p) 16
          then some (minus_one, f)
          else none))
        × (storage_get_payload_data flash storage_init i (number_of p) f ≡ (
            if ltb (number_of p * sections_per_payload + i / payloads_per_section p) 16
            then some (minus_one, [])
            else none))
        × (storage_get_payload_data flash storage_init
              (capacity fod_sensors)
              (number_of fod_sensors)
              f
            ≡ none)
  unfolding storage_set_payload_data storage_get_payload_data number_of
  past_the_sections p i sample f h h' =
      let place = locate-outside p i h h' in
      let last = locate-outside fod_sensors (capacity fod_sensors) (omega arith) (omega arith) in
      elim (Bool-cases (ltb (number_of p * sections_per_payload + i / payloads_per_section p) 16)) [
        | inl e ↦ (
          rw (known p, payload_of-number p, place, e) refl,
          rw (known p, payload_of-number p, place, e) refl,
          rw last refl,
        )
        | inr e ↦ (
          rw (known p, payload_of-number p, place, e) refl,
          rw (known p, payload_of-number p, place, e) refl,
          rw last refl,
        )
      ]

  start_of : (i : ℕ) → i < 16 → get_or storage_init.payloads i 0 ≡ i * size_per_section
  unfolding storage_init
  start_of i h = get_or-upto (λ (n : ℕ). (0 + n * 256 * 1024) % u32_mod) 0 16 i 0 h ∙ ground arith

  one_section :
      (i : ℕ) (f f' : F) (k : ℕ)
      → i < 16
      → flash.erase_block (get_or storage_init.payloads i 0) f ≡ (0, f')
      → flash.byte k f' ≡ (
          if leb (i * size_per_section) k && ltb k ((i + 1) * size_per_section)
          then blank_byte
          else flash.byte k f)
  one_section i f f' k h e =
      let at : flash.erase_block (i * size_per_section) f ≡ (0, f') =
        ap (λ a. flash.erase_block a f) (sym (start_of i h)) ∙ e in
      elim (Bool-cases (leb (i * size_per_section) k)) [
        | inr below ↦
            rw below (flash.spared (i * size_per_section) f f' k at (inl (ground (arith, below))))
        | inl low ↦ elim (Bool-cases (ltb k ((i + 1) * size_per_section))) [
          | inl high ↦
              rw (low, high)
                (flash.erased (i * size_per_section) f f' k at (ground (arith, low))
                  (ground (arith, high)))
          | inr above ↦
              rw (low, above)
                (flash.spared (i * size_per_section) f f' k at (inr (ground (arith, above))))
        ]
      ]

  -- One section after the other, from section `i` on.
  erase_sections-blank :
      (i rounds : ℕ) (f f' : F) (k : ℕ)
      → i + rounds ≤ 16
      → erase_sections flash storage_init i rounds f ≡ (0, f')
      → flash.byte k f' ≡ (
          if leb (i * size_per_section) k && ltb k ((i + rounds) * size_per_section)
          then blank_byte
          else flash.byte k f)
  unfolding erase_sections
  erase_sections-blank i zero f f' k h e = ap (λ x. flash.byte k x.1) (sym e) ∙ ground arith
  erase_sections-blank i (suc rounds) f f' k h e =
      let add = get_or storage_init.payloads i 0 in
      let rc = (flash.erase_block add f).0 in
      let f_1 : F = (flash.erase_block add f).1 in
      elim (Bool-cases (rc == 0)) [
        | inr failed ↦ absurd (omega (arith, ap (λ x. x.0) (rw failed at e)))
        | inl done ↦
            let zero_rc : rc ≡ 0 = ground (arith, done) in
            let rest : erase_sections flash storage_init (i + 1) rounds f_1 ≡ (0, f') =
              rw done at e in
            let first = one_section i f f_1 k (omega arith) (ap (λ x. (x, f_1)) zero_rc) in
            let later = erase_sections-blank (i + 1) rounds f_1 f' k (omega arith) rest in
            later ∙ ground (arith, first)
      ]

  -- Where `storage_delete_memory_sections` gives 0, each byte of the payloads' sixteen sections is
  -- erased, and no other byte changed.
  pub deletion_blanks :
      (f f' : F) (k : ℕ)
      → storage_delete_memory_sections flash storage_init f ≡ (0, f')
      → flash.byte k f' ≡ (if ltb k (16 * size_per_section) then blank_byte else flash.byte k f)
  unfolding storage_delete_memory_sections
  deletion_blanks f f' k e = erase_sections-blank 0 16 f f' k (omega arith) e ∙ ground arith
