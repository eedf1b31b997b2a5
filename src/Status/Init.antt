-- ===== src/Status/Init.antt =====
-- The status variables after `dat_repo_init` of src/system/repoData.c.
use balloon_suchai_flight_so.Prelude.{
  ℕ, zero, suc, ◌+◌, ◌<◌, ◌≤◌, ◌%◌, ◌^◌, ◌≡◌, ◌&&◌, arith, leb, ltb, ◌==◌, if◌then◌else◌,
}
use balloon_suchai_flight_so.Prelude.Words.{int_max, int_min}
use balloon_suchai_flight_so.Status.{
  Buff, IsValid, dat_set_system_var, dat_get_system_var, fill_from, init_vars,
}
use balloon_suchai_flight_so.Status.Vars.{dat_system_last_var}
use balloon_suchai_flight_so.Status.Access.{get-set_system_var, dat_set_system_var-IsValid}

pub fill_from-IsValid : (b : Buff) (i v rounds : ℕ) → IsValid b → IsValid (fill_from b i v rounds)
unfolding fill_from
fill_from-IsValid b i v zero h = h
fill_from-IsValid b i v (suc rounds) h =
    fill_from-IsValid (dat_set_system_var b i v) (i + 1) v rounds
      (dat_set_system_var-IsValid b i v h)

-- The loop over the variables writes those from `i` on, one for each round.
pub get-fill_from :
    (b : Buff) (i v rounds j : ℕ)
    → IsValid b
    → i + rounds ≤ dat_system_last_var
    → j < dat_system_last_var
    → dat_get_system_var (fill_from b i v rounds) j
      ≡ (if leb i j && ltb j (i + rounds) then v else dat_get_system_var b j)
unfolding fill_from
get-fill_from b i v zero j h p q = ground arith
get-fill_from b i v (suc rounds) j h p q = ground (
  arith,
  get-fill_from (dat_set_system_var b i v) (i + 1) v rounds j (dat_set_system_var-IsValid b i v h),
  get-set_system_var b i j v h,
)

pub init_vars-IsValid : (b : Buff) → IsValid b → IsValid (init_vars b)
unfolding init_vars
init_vars-IsValid b h = dat_set_system_var-IsValid _ 5 0 (
    dat_set_system_var-IsValid _ 4 _
      (dat_set_system_var-IsValid _ 3 0 (fill_from-IsValid b 0 int_max dat_system_last_var h)))

-- On a buffer of 171 slots, `dat_repo_init` at storage mode 0 leaves every variable at INT_MAX but
-- three: the hours without reset and the ground watchdog are 0, and the reset counter, INT_MAX + 1,
-- is INT_MIN.
pub get-init_vars :
    (b : Buff) (j : ℕ)
    → IsValid b
    → j < dat_system_last_var
    → dat_get_system_var (init_vars b) j
      ≡ (if j == 5 then 0 else if j == 4 then int_min else if j == 3 then 0 else int_max)
unfolding init_vars
get-init_vars b j h q =
    let h0 = fill_from-IsValid b 0 int_max dat_system_last_var h in
    let h1 = dat_set_system_var-IsValid _ 3 0 h0 in
    let c = dat_get_system_var (dat_set_system_var (fill_from b 0 int_max 57) 3 0) 4 in
    let h2 = dat_set_system_var-IsValid _ 4 ((c + 1) % 2 ^ 32) h1 in
    ground (
      arith,
      get-set_system_var _ 5 j 0 h2,
      get-set_system_var _ 4 j ((c + 1) % 2 ^ 32) h1,
      get-set_system_var _ 3 j 0 h0,
      get-set_system_var _ 3 4 0 h0,
      get-fill_from b 0 int_max 57 4 h,
      get-fill_from b 0 int_max 57 j h,
    )
