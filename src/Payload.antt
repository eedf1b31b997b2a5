-- ===== src/Payload.antt =====
-- Payload samples in src/system/repoData.c: `data_map`, `dat_add_payload_sample`,
-- `dat_get_recent_payload_sample` and `dat_delete_memory_sections` on Linux. The storage behind them
-- is an interface: it is a data base or a flash memory, by the platform. The functions take and
-- give back `repo_data_sem` round their use of it, on every path.
pub mod Recent
pub mod InMemory
mod Tests
use balloon_suchai_flight_so.Prelude.{
  ℕ, zero, suc, ◌+◌, ◌≡◌, ◌≢◌, ◌⊎◌, List, [], ◌∷◌, Option, none, some, ◌==◌, if◌then◌else◌,
}
use balloon_suchai_flight_so.Prelude.Words.{add_32, sub_32, sle, minus_one}
use balloon_suchai_flight_so.Status.{Buff, dat_set_system_var, dat_get_system_var}
use balloon_suchai_flight_so.Status.Vars.{DatSystem, index}
use DatSystem.{
  dat_mem_temp, dat_mem_ads, dat_mem_eps, dat_mem_lang, dat_mem_gps, dat_mem_prs, dat_mem_dpl,
  dat_mem_fod, dat_mem_ack_temp, dat_mem_ack_ads, dat_mem_ack_eps, dat_mem_ack_lang,
  dat_mem_ack_gps, dat_mem_ack_prs, dat_mem_ack_dpl, dat_mem_ack_fod,
}

-- `payload_id_t`
pub data PayloadId : Type 0 where
  temp_sensors ads_sensors eps_sensors lang_sensors : PayloadId
  gps_sensors prs_sensors dpl_sensors fod_sensors : PayloadId

-- `struct map`, less the names that only a print uses.
pub record DataMap : Type 0 where
  pub size : ℕ
  pub sys_index : DatSystem
  pub sys_ack : DatSystem

abbrev entry : ℕ → DatSystem → DatSystem → DataMap
entry n i a = record { size = n; sys_index = i; sys_ack = a }

-- The sizes are those of the structs of src/system/include/repoData.h, whose members have four
-- bytes each.
abbrev pub data_map : PayloadId → DataMap
data_map temp_sensors = entry 16 dat_mem_temp dat_mem_ack_temp
data_map ads_sensors = entry 28 dat_mem_ads dat_mem_ack_ads
data_map eps_sensors = entry 40 dat_mem_eps dat_mem_ack_eps
data_map lang_sensors = entry 20 dat_mem_lang dat_mem_ack_lang
data_map gps_sensors = entry 32 dat_mem_gps dat_mem_ack_gps
data_map prs_sensors = entry 16 dat_mem_prs dat_mem_ack_prs
data_map dpl_sensors = entry 8 dat_mem_dpl dat_mem_ack_dpl
data_map fod_sensors = entry 16 dat_mem_fod dat_mem_ack_fod

abbrev pub all_payloads : List PayloadId
all_payloads =
    temp_sensors ∷ ads_sensors ∷ eps_sensors ∷ lang_sensors ∷ gps_sensors ∷ prs_sensors
    ∷ dpl_sensors ∷ fod_sensors ∷ []

abbrev pub pick : List PayloadId → ℕ → Option PayloadId
pick [] n = none
pick (p ∷ ps) zero = some p
pick (p ∷ ps) (suc n) = pick ps n

-- The payload of a number, `none` from `last_sensor` on.
abbrev pub payload_of : ℕ → Option PayloadId
payload_of n = pick all_payloads n

abbrev pub index_of : Buff → PayloadId → ℕ
index_of b p = dat_get_system_var b (index ((data_map p).sys_index))

abbrev pub ack_of : Buff → PayloadId → ℕ
ack_of b p = dat_get_system_var b (index ((data_map p).sys_ack))

-- `storage_set_payload_data` and `storage_get_payload_data` over a state `S` and samples `D`: the
-- first gives 0 where it stored the sample, and the second `none` where it fails.
pub record Storage (S D : Type 0) : Type 0 where
  pub set_payload_data : ℕ → D → PayloadId → S → ℕ × S
  pub get_payload_data : ℕ → PayloadId → S → Option D

-- What a storage promises of some of its places: `Ready i d p s` says that the place takes the
-- sample, and `Place i p` that it can be read. Then the sample is stored and read back, and every
-- other place of the payload stays as it is and as ready as it is. This is what a flash promises; the
-- Linux storage at mode 0 gives 0 and stores nothing, so that it has no place that is ready.
pub record Keeps {S D : Type 0} (storage : Storage S D) (Ready : ℕ → D → PayloadId → S → Type 0)
    (Place : ℕ → PayloadId → Type 0) : Type 0 where
  pub taken :
      (i : ℕ) (d : D) (p : PayloadId) (s : S)
      → Ready i d p s
      → (storage.set_payload_data i d p s).0 ≡ 0
  pub stored :
      (i : ℕ) (d : D) (p : PayloadId) (s : S)
      → Ready i d p s
      → storage.get_payload_data i p ((storage.set_payload_data i d p s).1) ≡ some d
  pub kept :
      (i j : ℕ) (d : D) (p : PayloadId) (s : S)
      → Ready i d p s
      → Place j p
      → j ≢ i
      → storage.get_payload_data j p ((storage.set_payload_data i d p s).1)
        ≡ storage.get_payload_data j p s
  pub still_ready :
      (i j : ℕ) (d e : D) (p : PayloadId) (s : S)
      → Ready i d p s
      → Ready j e p s
      → j ≢ i
      → Ready j e p ((storage.set_payload_data i d p s).1)
  pub ready_place : (i : ℕ) (d : D) (p : PayloadId) (s : S) → Ready i d p s → Place i p

-- The status variables and the storage.
pub record Memory (S : Type 0) : Type 0 where
  pub buff : Buff
  pub store : S

-- `dat_set_system_var(data_map[i].sys_index, 0)` for each payload.
unfoldable pub reset_indices : List PayloadId → Buff → Buff
reset_indices [] b = b
reset_indices (p ∷ ps) b =
    reset_indices ps (dat_set_system_var b (index ((data_map p).sys_index)) 0)

-- On Linux nothing is erased, and the result is 0; without SCH_FP_ENABLED, no flight plan is.
unfoldable pub dat_delete_memory_sections : Buff → ℕ × Buff
dat_delete_memory_sections b = (0, reset_indices all_payloads b)

-- `initialize_payload_vars`, which the boot calls where the storage is permanent.
unfoldable pub initialize_payload_vars : List PayloadId → Buff → Buff
initialize_payload_vars [] b = b
initialize_payload_vars (p ∷ ps) b =
    let reset =
      dat_set_system_var (dat_set_system_var b (index ((data_map p).sys_index)) 0)
        (index ((data_map p).sys_ack)) 0 in
    initialize_payload_vars ps (if index_of b p == minus_one then reset else b)

module _ {S D : Type 0} (storage : Storage S D) where
  unfoldable pub dat_add_payload_sample : D → PayloadId → Memory S → ℕ × Memory S
  dat_add_payload_sample d payload m =
      let i = index_of m.buff payload in
      let (ret, s) = storage.set_payload_data i d payload m.store in
      if ret == 0
      then (
        add_32 i 1,
        record {
          buff = dat_set_system_var m.buff (index ((data_map payload).sys_index)) (add_32 i 1);
          store = s;
        },
      )
      else (minus_one, record m { store = s })

  -- `none` stands for -1 and any other error, which leave the caller's buffer as it is.
  unfoldable pub dat_get_recent_payload_sample : PayloadId → ℕ → Memory S → Option D
  dat_get_recent_payload_sample payload delay m =
      let i = sub_32 (sub_32 (index_of m.buff payload) 1) delay in
      if sle 0 i then storage.get_payload_data i payload m.store else none
