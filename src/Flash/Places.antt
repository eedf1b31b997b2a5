-- ===== src/Flash/Places.antt =====
-- Where src/drivers/nanomind/data_storage.c puts each sample in the flash.
use balloon_suchai_flight_so.Prelude.{
  ℕ, ◌+◌, ◌*◌, ◌/◌, ◌%◌, ◌^◌, ◌≤◌, ◌<◌, ◌≡◌, ◌≢◌, ◌⊎◌, refl, ap, sym, inl, inr, ◌∙◌, arith, true,
  false, none, some, ltb, lt→ltb, leb, if◌then◌else◌, Bool-cases, subst,
}
use balloon_suchai_flight_so.Prelude.Upto.{length-upto, get_or-upto}
use balloon_suchai_flight_so.Prelude.Words.{u32_mod, sle, add_32, int_min}
use balloon_suchai_flight_so.Payload.{PayloadId, data_map, payload_of}
use PayloadId.{
  temp_sensors, ads_sensors, eps_sensors, lang_sensors, gps_sensors, prs_sensors, dpl_sensors,
  fod_sensors,
}
use balloon_suchai_flight_so.Telemetry.{number_of}
use balloon_suchai_flight_so.Flash.{
  size_per_section, sections_per_payload, payloads_per_section, storage_init, locate,
}

-- The places of a payload, and the address of a place.
abbrev pub capacity : PayloadId → ℕ
capacity p = sections_per_payload * payloads_per_section p

abbrev pub address : PayloadId → ℕ → ℕ
address p i =
    (number_of p * sections_per_payload + i / payloads_per_section p) * size_per_section
    + i % payloads_per_section p * (data_map p).size

-- The first address behind a payload's sections.
abbrev pub area_end : PayloadId → ℕ
area_end p = (number_of p + 1) * sections_per_payload * size_per_section

pub within :
    (p : PayloadId) (i : ℕ)
    → i < capacity p
    → (number_of p * sections_per_payload * size_per_section ≤ address p i)
      × (address p i + (data_map p).size ≤ area_end p)
unfolding number_of
within temp_sensors i h = (omega arith, ground arith)
within ads_sensors i h = (omega arith, ground arith)
within eps_sensors i h = (omega arith, ground arith)
within lang_sensors i h = (omega arith, ground arith)
within gps_sensors i h = (omega arith, ground arith)
within prs_sensors i h = (omega arith, ground arith)
within dpl_sensors i h = (omega arith, ground arith)
within fod_sensors i h = (omega arith, ground arith)

apart :
    (p : PayloadId) (i j : ℕ)
    → i < j
    → j < capacity p
    → address p i + (data_map p).size ≤ address p j
unfolding number_of
apart temp_sensors i j h hj = ground arith
apart ads_sensors i j h hj = ground arith
apart eps_sensors i j h hj = ground arith
apart lang_sensors i j h hj = ground arith
apart gps_sensors i j h hj = ground arith
apart prs_sensors i j h hj = ground arith
apart dpl_sensors i j h hj = ground arith
apart fod_sensors i j h hj = ground arith

-- The steps of `locate`.
sums :
    (p : PayloadId) (i : ℕ)
    → i < 2 ^ 31
    → (add_32 (number_of p * sections_per_payload) (i / payloads_per_section p)
        ≡ number_of p * sections_per_payload + i / payloads_per_section p)
      × (sle sections_per_payload (i / payloads_per_section p) ≡ leb (capacity p) i)
unfolding number_of
sums temp_sensors i h = (ground arith, ground arith)
sums ads_sensors i h = (ground arith, ground arith)
sums eps_sensors i h = (ground arith, ground arith)
sums lang_sensors i h = (ground arith, ground arith)
sums gps_sensors i h = (ground arith, ground arith)
sums prs_sensors i h = (ground arith, ground arith)
sums dpl_sensors i h = (ground arith, ground arith)
sums fod_sensors i h = (ground arith, ground arith)

lands :
    (p : PayloadId) (i : ℕ)
    → i < capacity p
    → (number_of p * sections_per_payload + i / payloads_per_section p < 16)
      × (((0 + (number_of p * sections_per_payload + i / payloads_per_section p) * 256 * 1024)
                % u32_mod
              + i % payloads_per_section p * (data_map p).size)
            % u32_mod
          ≡ address p i)
unfolding number_of
lands temp_sensors i h = (omega arith, ground arith)
lands ads_sensors i h = (omega arith, ground arith)
lands eps_sensors i h = (omega arith, ground arith)
lands lang_sensors i h = (omega arith, ground arith)
lands gps_sensors i h = (omega arith, ground arith)
lands prs_sensors i h = (omega arith, ground arith)
lands dpl_sensors i h = (omega arith, ground arith)
lands fod_sensors i h = (omega arith, ground arith)

small : (p : PayloadId) → capacity p < 2 ^ 31
small temp_sensors = omega arith
small ads_sensors = omega arith
small eps_sensors = omega arith
small lang_sensors = omega arith
small gps_sensors = omega arith
small prs_sensors = omega arith
small dpl_sensors = omega arith
small fod_sensors = omega arith

pub locate-inside :
    (p : PayloadId) (i : ℕ) → i < capacity p → locate storage_init i p ≡ some (some (address p i))
unfolding locate storage_init
locate-inside p i h =
    let near : ltb i int_min ≡ true = lt→ltb i int_min (omega (arith, small p, h)) in
    let (sum, test) = sums p i (omega (arith, small p, h)) in
    let (few, place) = lands p i h in
    let inside : leb (capacity p) i ≡ false = ground (arith, h) in
    let long = length-upto (λ (k : ℕ). (0 + k * 256 * 1024) % u32_mod) 0 16 in
    let base = get_or-upto (λ (k : ℕ). (0 + k * 256 * 1024) % u32_mod) 0 16 _ 0 few in
    let start = base ∙ ap (λ (n : ℕ). (0 + n * 256 * 1024) % u32_mod) (omega arith) in
    rw (near, sum, long, lt→ltb _ 16 few, test, inside)
      (ap (λ (n : ℕ). some (some ((n + i % payloads_per_section p * (data_map p).size) % u32_mod)))
          start
        ∙ ap (λ (n : ℕ). some (some n)) place)

pub locate-outside :
    (p : PayloadId) (i : ℕ)
    → capacity p ≤ i
    → i < 2 ^ 31
    → locate storage_init i p ≡ (
        if ltb (number_of p * sections_per_payload + i / payloads_per_section p) 16
        then some none
        else none)
unfolding locate storage_init
locate-outside p i h h' =
    let near : ltb i int_min ≡ true = lt→ltb i int_min (omega (arith, h')) in
    let (sum, test) = sums p i h' in
    let past : leb (capacity p) i ≡ true = ground (arith, h) in
    let long = length-upto (λ (k : ℕ). (0 + k * 256 * 1024) % u32_mod) 0 16 in
    rw (near, sum, long, test, past) refl

data Order (a b : ℕ) : Type 0 where
  below : a < b → Order a b
  above : b < a → Order a b
  equal : a ≡ b → Order a b

three_way : (a b : ℕ) → Order a b
three_way a b = elim (Bool-cases (ltb a b)) [
  | inl h ↦ below (ground (arith, h))
  | inr h ↦ elim (Bool-cases (ltb b a)) [
    | inl k ↦ above (ground (arith, k))
    | inr k ↦ equal (ground (arith, h, k))
  ]
]

pub payload_of-number : (p : PayloadId) → payload_of (number_of p) ≡ some p
unfolding number_of
payload_of-number temp_sensors = refl
payload_of-number ads_sensors = refl
payload_of-number eps_sensors = refl
payload_of-number lang_sensors = refl
payload_of-number gps_sensors = refl
payload_of-number prs_sensors = refl
payload_of-number dpl_sensors = refl
payload_of-number fod_sensors = refl

some-injective : {A : Type 0} {a b : A} → some a ≡ some b → a ≡ b
some-injective {A} {a} {b} e = ap (λ o. elim o [ none ↦ a | some x ↦ x ]) e

number-injective : (p q : PayloadId) → number_of p ≡ number_of q → p ≡ q
unfolding number_of
number-injective p q e =
    some-injective (sym (payload_of-number p) ∙ ap payload_of e ∙ payload_of-number q)

later_area :
    (p q : PayloadId) (i j : ℕ)
    → number_of p < number_of q
    → i < capacity p
    → j < capacity q
    → address p i + (data_map p).size ≤ address q j
later_area p q i j h hi hj =
    let (_, before) = within p i hi in
    let (behind, _) = within q j hj in omega (arith, h, before, behind)

pub sides :
    (p q : PayloadId) (i j : ℕ)
    → i < capacity p
    → j < capacity q
    → (p ≢ q) ⊎ (i ≢ j)
    → (address p i + (data_map p).size ≤ address q j)
      ⊎ (address q j + (data_map q).size ≤ address p i)
sides p q i j hi hj ne = elim (three_way (number_of p) (number_of q)) [
  | below h ↦ inl (later_area p q i j h hi hj)
  | above h ↦ inr (later_area q p j i h hj hi)
  | equal e ↦
      let same = number-injective p q e in
      elim (three_way i j) [
        | below h ↦ inl (
            subst (λ x. address p i + (data_map p).size ≤ address x j) same
              (apart p i j h (subst (λ x. j < capacity x) (sym same) hj)))
        | above h ↦
            inr (subst (λ x. address x j + (data_map x).size ≤ address p i) same (apart p j i h hi))
        | equal e' ↦ elim ne [ inl n ↦ absurd (n same) | inr n ↦ absurd (n e') ]
      ]
]

last : (p : PayloadId) → area_end p ≤ 16 * size_per_section
unfolding number_of
last temp_sensors = omega arith
last ads_sensors = omega arith
last eps_sensors = omega arith
last lang_sensors = omega arith
last gps_sensors = omega arith
last prs_sensors = omega arith
last dpl_sensors = omega arith
last fod_sensors = omega arith

-- The places that `locate` gives two samples, of the same payload or of two, that are both within
-- the two sections of their payload: neither is refused, the samples lie in the flash without a byte
-- in common, and each lies within the two sections of its own payload, which are among the sixteen.
pub places_are_disjoint :
    (p q : PayloadId) (i j : ℕ)
    → i < sections_per_payload * payloads_per_section p
    → j < sections_per_payload * payloads_per_section q
    → (p ≢ q) ⊎ (i ≢ j)
    → (a b : ℕ) × (locate storage_init i p ≡ some (some a))
      × (locate storage_init j q ≡ some (some b))
      × ((a + (data_map p).size ≤ b) ⊎ (b + (data_map q).size ≤ a))
      × (number_of p * sections_per_payload * size_per_section ≤ a)
      × (a + (data_map p).size ≤ (number_of p + 1) * sections_per_payload * size_per_section)
      × ((number_of p + 1) * sections_per_payload * size_per_section ≤ 16 * size_per_section)
places_are_disjoint p q i j hi hj ne =
    let (low, high) = within p i hi in
    (
      address p i,
      address q j,
      locate-inside p i hi,
      locate-inside q j hj,
      sides p q i j hi hj ne,
      low,
      high,
      last p,
    )
