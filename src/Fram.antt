-- ===== src/Fram.antt =====
-- The status variables in the NanoMind's FRAM: `storage_repo_set_value_idx` and
-- `storage_repo_get_value_idx` of src/drivers/nanomind/data_storage.c, and the accesses of
-- src/system/repoData.c at a storage mode above 0. The FRAM's driver (fm33256b) is not part of the
-- repository: it is a record of its operations and of what its documentation promises. `word` and
-- `number` are the machine's order of the four bytes of a number.
mod Variables
mod Tests
use balloon_suchai_flight_so.Prelude.{
  ℕ, ◌+◌, ◌*◌, ◌%◌, ◌^◌, ◌≤◌, ◌<◌, ◌≡◌, ◌⊎◌, List, length, get_or,
}
use balloon_suchai_flight_so.Prelude.Upto.{upto}
use balloon_suchai_flight_so.Status.{copy_2, copy_3, vote}

-- The FRAM: a write puts its bytes and changes no other place.
pub record Fram (M : Type 0) : Type 0 where
  pub byte : ℕ → M → ℕ
  pub write_data : ℕ → List ℕ → M → M
  pub written :
      (a : ℕ) (bs : List ℕ) (m : M) (k : ℕ)
      → k < length bs
      → byte (a + k) (write_data a bs m) ≡ get_or bs k 0
  pub kept :
      (a : ℕ) (bs : List ℕ) (m : M) (k : ℕ)
      → (k < a) ⊎ (a + length bs ≤ k)
      → byte k (write_data a bs m) ≡ byte k m

-- `(uint16_t)(index*len)`
abbrev pub fram_address : ℕ → ℕ
fram_address index = index * 4 % 2 ^ 16

module _ {M : Type 0} (fram : Fram M) (word : ℕ → List ℕ) (number : List ℕ → ℕ) where
  unfoldable pub storage_repo_set_value_idx : ℕ → ℕ → M → M
  storage_repo_set_value_idx index value m = fram.write_data (fram_address index) (word value) m

  unfoldable pub storage_repo_get_value_idx : ℕ → M → ℕ
  storage_repo_get_value_idx index m = number (upto (λ k. fram.byte k m) (fram_address index) 4)

  -- `dat_set_system_var` and `dat_get_system_var`, with three copies.
  unfoldable pub set_stored_var : ℕ → ℕ → M → M
  set_stored_var index value m =
      let m_1 = storage_repo_set_value_idx index value m in
      let m_2 = storage_repo_set_value_idx (copy_2 index) value m_1 in
      storage_repo_set_value_idx (copy_3 index) value m_2

  unfoldable pub get_stored_var : ℕ → M → ℕ
  get_stored_var index m =
      vote (storage_repo_get_value_idx index m) (storage_repo_get_value_idx (copy_2 index) m)
        (storage_repo_get_value_idx (copy_3 index) m)
