-- ===== src/Payload/Recent.antt =====
-- The samples of a payload in src/system/repoData.c, seen as a sequence whose last one is newest.
use balloon_suchai_flight_so.Prelude.{
  ℕ, ◌+◌, ◌-◌, ◌<◌, ◌≤◌, ◌≡◌, refl, ap, ◌∙◌, sym, some, none, arith, true, false, ltb, Bool-cases,
  inl, inr, if◌then◌else◌, ◌==◌,
}
use balloon_suchai_flight_so.Prelude.Words.{add_32, sub_32, sle, int_max}
use balloon_suchai_flight_so.Status.{IsValid, dat_set_system_var, dat_get_system_var}
use balloon_suchai_flight_so.Status.Vars.{index}
use balloon_suchai_flight_so.Status.Access.{get-set_system_var}
use balloon_suchai_flight_so.Payload.{
  PayloadId, Storage, Keeps, Memory, data_map, index_of, dat_add_payload_sample,
  dat_get_recent_payload_sample,
}
use PayloadId.{
  temp_sensors, ads_sensors, eps_sensors, lang_sensors, gps_sensors, prs_sensors, dpl_sensors,
  fod_sensors,
}

pub index_small : (p : PayloadId) → index ((data_map p).sys_index) < 57
index_small temp_sensors = omega arith
index_small ads_sensors = omega arith
index_small eps_sensors = omega arith
index_small lang_sensors = omega arith
index_small gps_sensors = omega arith
index_small prs_sensors = omega arith
index_small dpl_sensors = omega arith
index_small fod_sensors = omega arith

back : (i delay : ℕ) → delay < i → i ≤ int_max → sub_32 (sub_32 i 1) delay ≡ i - 1 - delay
back i delay h small = ground arith

not_negative : (i : ℕ) → i ≤ int_max → sle 0 i ≡ true
not_negative i small = ground arith

negative : (i delay : ℕ) → i ≤ delay → delay ≤ int_max → sle 0 (sub_32 (sub_32 i 1) delay) ≡ false
negative i delay h small = ground arith

-- Reading with a delay below the index reads the place that many before the newest.
pub recent_at :
    {S D : Type 0} (storage : Storage S D) (p : PayloadId) (delay : ℕ) (m : Memory S)
    → delay < index_of m.buff p
    → index_of m.buff p ≤ int_max
    → dat_get_recent_payload_sample storage p delay m
      ≡ storage.get_payload_data (index_of m.buff p - 1 - delay) p m.store
unfolding dat_get_recent_payload_sample
recent_at storage p delay m h small =
    let i = index_of m.buff p in
    rw (back i delay h small, not_negative (i - 1 - delay) (omega arith)) refl

-- Reading with a delay from the index on fails, as long as the difference is an `int`.
recent_past :
    {S D : Type 0} (storage : Storage S D) (p : PayloadId) (delay : ℕ) (m : Memory S)
    → index_of m.buff p ≤ delay
    → delay ≤ int_max
    → dat_get_recent_payload_sample storage p delay m ≡ none
unfolding dat_get_recent_payload_sample
recent_past storage p delay m h small =
    let i = index_of m.buff p in
    let below : sle 0 (sub_32 (sub_32 i 1) delay) ≡ false = negative i delay h small in
    rw below refl

-- On a buffer of 171 slots, with a storage that keeps what its ready places take, and whose places
-- below the index can be read: a sample that the place of the index is ready for, at an index below
-- the largest `int`, 0 included, is the newest one. It is what a read with no delay gives, a read
-- with one delay more gives what it gave before, whatever the delay below the largest `int`, the
-- result is the new index, and no other variable changes.
pub add_shifts :
    {S D : Type 0} (storage : Storage S D) (Ready : ℕ → D → PayloadId → S → Type 0)
    (Place : ℕ → PayloadId → Type 0) (d : D) (p : PayloadId) (m : Memory S) (delay j : ℕ)
    → Keeps storage Ready Place
    → IsValid m.buff
    → index_of m.buff p < int_max
    → delay < int_max
    → j < 57
    → Ready (index_of m.buff p) d p m.store
    → ((k : ℕ) → k < index_of m.buff p → Place k p)
    → (m' : Memory S) × (dat_add_payload_sample storage d p m ≡ (index_of m.buff p + 1, m'))
      × (dat_get_recent_payload_sample storage p 0 m' ≡ some d)
      × (dat_get_recent_payload_sample storage p (delay + 1) m'
          ≡ dat_get_recent_payload_sample storage p delay m)
      × (dat_get_system_var m'.buff j ≡ (
          if index ((data_map p).sys_index) == j
          then index_of m.buff p + 1
          else dat_get_system_var m.buff j))
unfolding dat_add_payload_sample
add_shifts {S} storage Ready Place d p m delay j keeps valid small h hj ready places =
    let i = index_of m.buff p in
    let k = index ((data_map p).sys_index) in
    let s : S = (storage.set_payload_data i d p m.store).1 in
    let ok = keeps.taken i d p m.store ready in
    let m' : Memory S = record { buff = dat_set_system_var m.buff k (i + 1); store = s } in
    let index' : index_of m'.buff p ≡ i + 1 =
      get-set_system_var m.buff k k (i + 1) valid (index_small p) (index_small p) ∙ ground arith in
    let next : add_32 i 1 ≡ i + 1 = ground arith in
    (
      m',
      rw (ok, next) refl,
      recent_at storage p 0 m' (omega (arith, index')) (omega (arith, index'))
          ∙ ap (λ n. storage.get_payload_data (n - 1 - 0) p s) index'
          ∙ ap (λ n. storage.get_payload_data n p s) (omega arith)
          ∙ keeps.stored i d p m.store ready,
      elim (Bool-cases (ltb delay i)) [
        | inl e ↦
            let below : delay < i = ground (arith, e) in
            recent_at storage p (delay + 1) m' (omega (arith, index', below))
              (omega (arith, index'))
            ∙ ap (λ n. storage.get_payload_data (n - 1 - (delay + 1)) p s) index'
            ∙ ap (λ n. storage.get_payload_data n p s) (omega (arith, below))
            ∙ keeps.kept i (i - 1 - delay) d p m.store ready
                (places (i - 1 - delay) (omega (arith, below))) (λ e. omega (arith, e, below))
            ∙ sym (recent_at storage p delay m below (omega arith))
        | inr e ↦
            let past : i ≤ delay = ground (arith, e) in
            recent_past storage p (delay + 1) m' (omega (arith, index', past)) (omega arith)
            ∙ sym (recent_past storage p delay m past (omega arith))
      ],
      get-set_system_var m.buff k j (i + 1) valid (index_small p) hj,
    )
