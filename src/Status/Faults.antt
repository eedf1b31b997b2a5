-- ===== src/Status/Faults.antt =====
-- Tripled writing of src/system/repoData.c under memory faults: a slot of `DAT_SYSTEM_VAR_BUFF`
-- that changes by itself.
use balloon_suchai_flight_so.Prelude.{
  ℕ, ◌+◌, ◌*◌, ◌%◌, ◌<◌, ◌≡◌, ◌≢◌, ◌⊎◌, ◌∙◌, arith, length-set, get_or-set, get_or, ◌==◌,
  if◌then◌else◌, set, length, subst,
}
use native.Mathlib.Decide.{ℕ_discrete}
use balloon_suchai_flight_so.Status.{
  Buff, IsValid, copy_2, copy_3, dat_set_system_var, dat_get_system_var, vote, get_single,
}
use balloon_suchai_flight_so.Status.Vars.{dat_system_last_var}
use balloon_suchai_flight_so.Status.Access.{get_or-dat_set_system_var, dat_set_system_var-IsValid}

-- The three copies of a variable are the same.
abbrev pub Agrees : Buff → ℕ → Type 0
Agrees b i = (get_or b (copy_2 i) 0 ≡ get_or b i 0) × (get_or b (copy_3 i) 0 ≡ get_or b i 0)

-- No variable is damaged.
abbrev pub IsIntact : Buff → Type 0
IsIntact b = (i : ℕ) → i < dat_system_last_var → Agrees b i

-- On a buffer of 171 slots, after a write the copies of the written variable agree, and those of
-- any other one that agreed before.
pub write_repairs :
    (b : Buff) (i v j : ℕ)
    → IsValid b
    → i < dat_system_last_var
    → j < dat_system_last_var
    → (j ≢ i → Agrees b j)
    → Agrees (dat_set_system_var b i v) j
write_repairs b i v j valid hi hj agrees = ground (
  arith,
  agrees,
  get_or-dat_set_system_var b i v j valid hi,
  get_or-dat_set_system_var b i v (copy_2 j) valid hi,
  get_or-dat_set_system_var b i v (copy_3 j) valid hi,
)

-- In a buffer of 171 slots whose copies agree, any one slot may change to any value: every variable
-- still reads as before.
one_fault_masked :
    (b : Buff) (slot x j : ℕ)
    → IsValid b
    → IsIntact b
    → slot < dat_system_last_var + dat_system_last_var + dat_system_last_var
    → j < dat_system_last_var
    → dat_get_system_var (set b slot x) j ≡ dat_get_system_var b j
unfolding dat_get_system_var vote
one_fault_masked b slot x j valid intact hs hj = ground (
  arith,
  intact j hj,
  get_or-set b slot j x 0 (omega arith),
  get_or-set b slot (copy_2 j) x 0 (omega arith),
  get_or-set b slot (copy_3 j) x 0 (omega arith),
)

-- The reader's last branch: where all three copies differ the first one is returned.
pub three_way_conflict :
    (b : Buff) (j : ℕ)
    → get_or b j 0 ≢ get_or b (copy_2 j) 0
    → get_or b j 0 ≢ get_or b (copy_3 j) 0
    → get_or b (copy_2 j) 0 ≢ get_or b (copy_3 j) 0
    → dat_get_system_var b j ≡ get_single b j
unfolding dat_get_system_var vote get_single
three_way_conflict b j p q r = ground arith

-- What the program has written: the last value of each variable.
abbrev pub Written : Type 0
Written = ℕ → ℕ

abbrev pub wrote : Written → ℕ → ℕ → Written
wrote m i v j = if i == j then v else m j

-- A history of the buffer: writes by the program, and faults that each change one slot of a
-- variable whose copies are all as written (so: one fault at most for each variable between two
-- writes of it).
pub data History (b₀ : Buff) (m₀ : Written) : Buff → Written → Type 0 where
  start : History b₀ m₀ b₀ m₀
  write :
      {b : Buff} {m : Written} (i v : ℕ)
      → i < dat_system_last_var
      → History b₀ m₀ b m
      → History b₀ m₀ (dat_set_system_var b i v) (wrote m i v)
  fault :
      {b : Buff} {m : Written} (slot x : ℕ)
      → slot < dat_system_last_var * 3
      → Agrees b (slot % dat_system_last_var)
      → History b₀ m₀ b m
      → History b₀ m₀ (set b slot x) m

-- Two copies at least hold what was written.
abbrev pub Majority : Buff → Written → ℕ → Type 0
Majority b m j =
    ((get_or b j 0 ≡ m j) × (get_or b (copy_2 j) 0 ≡ m j))
    ⊎ ((get_or b j 0 ≡ m j) × (get_or b (copy_3 j) 0 ≡ m j))
    ⊎ ((get_or b (copy_2 j) 0 ≡ m j) × (get_or b (copy_3 j) 0 ≡ m j))

Majority-reads : (b : Buff) (m : Written) (j : ℕ) → Majority b m j → dat_get_system_var b j ≡ m j
unfolding dat_get_system_var vote
Majority-reads b m j h = ground arith

write-Majority :
    (b : Buff) (m : Written) (i v j : ℕ)
    → IsValid b
    → i < dat_system_last_var
    → j < dat_system_last_var
    → Majority b m j
    → Majority (dat_set_system_var b i v) (wrote m i v) j
write-Majority b m i v j valid hi hj h = ground (
  arith,
  get_or-dat_set_system_var b i v j valid hi,
  get_or-dat_set_system_var b i v (copy_2 j) valid hi,
  get_or-dat_set_system_var b i v (copy_3 j) valid hi,
)

-- Three copies that agree make a majority that one fault cannot take away.
hit-Majority :
    (b : Buff) (m : Written) (slot x j : ℕ)
    → slot < length b
    → Agrees b j
    → Majority b m j
    → Majority (set b slot x) m j
hit-Majority b m slot x j hs agrees h = ground (
  arith,
  get_or-set b slot j x 0 hs,
  get_or-set b slot (copy_2 j) x 0 hs,
  get_or-set b slot (copy_3 j) x 0 hs,
)

-- A fault elsewhere changes none of the copies.
miss-Majority :
    (b : Buff) (m : Written) (slot x j : ℕ)
    → slot < length b
    → slot % dat_system_last_var ≢ j
    → j < dat_system_last_var
    → Majority b m j
    → Majority (set b slot x) m j
miss-Majority b m slot x j hs ne hj h =
    let p : slot ≢ j = omega arith in
    let q : slot ≢ copy_2 j = omega arith in
    let r : slot ≢ copy_3 j = omega arith in
    ground (
      arith,
      get_or-set b slot j x 0 hs,
      get_or-set b slot (copy_2 j) x 0 hs,
      get_or-set b slot (copy_3 j) x 0 hs,
    )

fault-Majority :
    (b : Buff) (m : Written) (slot x j : ℕ)
    → IsValid b
    → slot < dat_system_last_var * 3
    → j < dat_system_last_var
    → Agrees b (slot % dat_system_last_var)
    → Majority b m j
    → Majority (set b slot x) m j
fault-Majority b m slot x j valid hs hj agrees h =
    let in_buff : slot < length b = rw valid hs in
    elim (ℕ_discrete (slot % dat_system_last_var) j) [
      | yes own ↦ hit-Majority b m slot x j in_buff (subst (Agrees b) own agrees) h
      | no other ↦ miss-Majority b m slot x j in_buff other hj h
    ]

History-IsValid :
    {b₀ : Buff} {m₀ : Written} {b : Buff} {m : Written} → IsValid b₀ → History b₀ m₀ b m → IsValid b
History-IsValid v start = v
History-IsValid v (write {b = b} i x hi r) = dat_set_system_var-IsValid b i x (History-IsValid v r)
History-IsValid v (fault {b = b} slot x hs a r) = length-set b slot x ∙ History-IsValid v r

History-Majority :
    {b₀ : Buff} {m₀ : Written} {b : Buff} {m : Written} (j : ℕ)
    → IsValid b₀
    → j < dat_system_last_var
    → Majority b₀ m₀ j
    → History b₀ m₀ b m
    → Majority b m j
History-Majority j v hj h start = h
History-Majority j v hj h (write {b = b} {m = m} i x hi r) =
    write-Majority b m i x j (History-IsValid v r) hi hj (History-Majority j v hj h r)
History-Majority j v hj h (fault {b = b} {m = m} slot x hs a r) =
    fault-Majority b m slot x j (History-IsValid v r) hs hj a (History-Majority j v hj h r)

intact-Majority : (b : Buff) (j : ℕ) → Agrees b j → Majority b (dat_get_system_var b) j
unfolding dat_get_system_var vote
intact-Majority b j h = ground arith

-- From a buffer of 171 slots whose copies agree, after any number of writes and any number of
-- faults, of which no two hit the same variable without a write of it in between, every variable
-- reads as last written.
pub History-masked :
    {b₀ b : Buff} {m : Written} (j : ℕ)
    → IsValid b₀
    → IsIntact b₀
    → j < dat_system_last_var
    → History b₀ (dat_get_system_var b₀) b m
    → dat_get_system_var b j ≡ m j
History-masked {b₀} {b} {m} j v intact hj r =
    Majority-reads b m j (History-Majority j v hj (intact-Majority b₀ j (intact j hj)) r)
