-- ===== src/Fram/Variables.antt =====
-- A variable that is written to the FRAM and read back.
use balloon_suchai_flight_so.Prelude.{
  ℕ, ◌+◌, ◌*◌, ◌^◌, ◌<◌, ◌≡◌, ◌≢◌, ◌⊎◌, refl, ap, sym, ◌∙◌, inl, inr, arith, List, length, ltb,
  ◌==◌, ◌||◌, if◌then◌else◌, Bool-cases,
}
use balloon_suchai_flight_so.Prelude.Upto.{upto, upto-list, upto-shift}
use balloon_suchai_flight_so.Status.{copy_2, copy_3, vote}
use balloon_suchai_flight_so.Status.Vars.{dat_system_last_var}
use balloon_suchai_flight_so.Fram.{
  Fram, fram_address, storage_repo_set_value_idx, storage_repo_get_value_idx, set_stored_var,
  get_stored_var,
}

abbrev pub copies : ℕ
copies = dat_system_last_var * 3

address-few : (i : ℕ) → i < copies → fram_address i ≡ i * 4
address-few i h = ground (arith, h)

sides : (i j : ℕ) → i ≢ j → (i < j) ⊎ (j < i)
sides i j h = elim (Bool-cases (ltb i j)) [
  | inl e ↦ inl (ground (arith, e))
  | inr e ↦ inr (ground (arith, e, h))
]

module _ {M : Type 0} (fram : Fram M) (word : ℕ → List ℕ) (number : List ℕ → ℕ)
    (four : (x : ℕ) → length (word x) ≡ 4)
    (number-word : (x : ℕ) → x < 2 ^ 32 → number (word x) ≡ x) where
  abbrev put : ℕ → ℕ → M → M
  put = storage_repo_set_value_idx fram word number

  abbrev get : ℕ → M → ℕ
  get = storage_repo_get_value_idx fram word number

  get-put_same : (i v : ℕ) (m : M) → v < 2 ^ 32 → get i (put i v m) ≡ v
  unfolding storage_repo_get_value_idx storage_repo_set_value_idx
  get-put_same i v m h =
      let g = λ (k : ℕ). fram.byte k (fram.write_data (fram_address i) (word v) m) in
      ap (λ (n : ℕ). number (upto g (fram_address i) n)) (sym (four v))
      ∙ ap number (
          upto-list g (fram_address i) (word v)
            (λ k l. fram.written (fram_address i) (word v) m k l))
      ∙ number-word v h

  get-put_other :
      (i j v : ℕ) (m : M) → i < copies → j < copies → i ≢ j → get j (put i v m) ≡ get j m
  unfolding storage_repo_get_value_idx storage_repo_set_value_idx
  get-put_other i j v m hi hj ne = ap number (
      upto-shift (λ k. fram.byte k (fram.write_data (fram_address i) (word v) m))
        (λ k. fram.byte k m) (fram_address j) (fram_address j) 4
        (λ k l. fram.kept (fram_address i) (word v) m (fram_address j + k) (elim (sides i j ne) [
          | inl before ↦ inr (omega (arith, before, four v, address-few i hi, address-few j hj))
          | inr behind ↦ inl (omega (arith, behind, address-few i hi, address-few j hj, l))
        ])))

  get-put :
      (i j v : ℕ) (m : M)
      → i < copies
      → j < copies
      → v < 2 ^ 32
      → get j (put i v m) ≡ (if i == j then v else get j m)
  get-put i j v m hi hj h = elim (Bool-cases (i == j)) [
    | inl e ↦
        let same : i ≡ j = ground (arith, e) in
        ap (λ (k : ℕ). get k (put i v m)) (sym same) ∙ get-put_same i v m h ∙ rw e refl
    | inr e ↦ get-put_other i j v m hi hj (λ same. ground (arith, e, same)) ∙ rw e refl
  ]

  get-set_stored :
      (i v j : ℕ) (m : M)
      → i < dat_system_last_var
      → j < copies
      → v < 2 ^ 32
      → get j (set_stored_var fram word number i v m)
        ≡ (if (i == j) || ((copy_2 i == j) || (copy_3 i == j)) then v else get j m)
  unfolding set_stored_var
  get-set_stored i v j m hi hj h =
      let m_1 = put i v m in
      let m_2 = put (copy_2 i) v m_1 in
      ground (
        arith,
        get-put i j v m (omega (arith, hi)) hj h,
        get-put (copy_2 i) j v m_1 (omega (arith, hi)) hj h,
        get-put (copy_3 i) j v m_2 (omega (arith, hi)) hj h,
      )

  -- For a value on 32 bits and two variables of the enumeration: a read after a write gives the
  -- value where the variables are the same, and what it gave before otherwise; and the read of the
  -- written variable gives the value still after one more write of any 32-bit value to any one of
  -- the 171 places.
  pub stored_variable_is_kept :
      (i j v c w : ℕ) (m : M)
      → i < dat_system_last_var
      → j < dat_system_last_var
      → c < copies
      → v < 2 ^ 32
      → w < 2 ^ 32
      → (get_stored_var fram word number j (set_stored_var fram word number i v m)
          ≡ (if i == j then v else get_stored_var fram word number j m))
        × (get_stored_var fram word number i (
              storage_repo_set_value_idx fram word number c w
                (set_stored_var fram word number i v m))
            ≡ v)
  unfolding get_stored_var vote
  stored_variable_is_kept i j v c w m hi hj hc hv hw =
      let m' = set_stored_var fram word number i v m in
      (
        ground (
          arith,
          get-set_stored i v j m hi (omega (arith, hj)) hv,
          get-set_stored i v (copy_2 j) m hi (omega (arith, hj)) hv,
          get-set_stored i v (copy_3 j) m hi (omega (arith, hj)) hv,
        ),
        ground (
          arith,
          get-put c i w m' hc (omega (arith, hi)) hw,
          get-put c (copy_2 i) w m' hc (omega (arith, hi)) hw,
          get-put c (copy_3 i) w m' hc (omega (arith, hi)) hw,
          get-set_stored i v i m hi (omega (arith, hi)) hv,
          get-set_stored i v (copy_2 i) m hi (omega (arith, hi)) hv,
          get-set_stored i v (copy_3 i) m hi (omega (arith, hi)) hv,
        ),
      )
