-- ===== src/Status/Access.antt =====
-- Reading back what was written in the status repository of src/system/repoData.c.
use balloon_suchai_flight_so.Prelude.{
  ℕ, ◌<◌, ◌≡◌, ◌∙◌, arith, length-set, get_or-set, get_or, ◌||◌, ◌==◌, if◌then◌else◌, length, set,
}
use balloon_suchai_flight_so.Status.{
  Buff, IsValid, copy_2, copy_3, dat_set_system_var, dat_get_system_var, vote,
}
use balloon_suchai_flight_so.Status.Vars.{dat_system_last_var}

-- A write keeps the buffer's size.
pub length-dat_set_system_var : (b : Buff) (i v : ℕ) → length (dat_set_system_var b i v) ≡ length b
unfolding dat_set_system_var
length-dat_set_system_var b i v =
    length-set (set (set b i v) (copy_2 i) v) (copy_3 i) v
    ∙ length-set (set b i v) (copy_2 i) v
    ∙ length-set b i v

pub dat_set_system_var-IsValid :
    (b : Buff) (i v : ℕ) → IsValid b → IsValid (dat_set_system_var b i v)
dat_set_system_var-IsValid b i v h = length-dat_set_system_var b i v ∙ h

-- What a write leaves in each of the 171 slots.
pub get_or-dat_set_system_var :
    (b : Buff) (i v k : ℕ)
    → IsValid b
    → i < dat_system_last_var
    → get_or (dat_set_system_var b i v) k 0
      ≡ (if (i == k) || ((copy_2 i == k) || (copy_3 i == k)) then v else get_or b k 0)
unfolding dat_set_system_var
get_or-dat_set_system_var b i v k valid h = ground (
  arith,
  get_or-set (set (set b i v) (copy_2 i) v) (copy_3 i) k v 0,
  get_or-set (set b i v) (copy_2 i) k v 0,
  get_or-set b i k v 0,
  length-set (set b i v) (copy_2 i) v,
  length-set b i v,
)

vote_agreed : (v : ℕ) → vote v v v ≡ v
unfolding vote
vote_agreed v = ground arith

-- On a buffer of 171 slots and for two variables of the enumeration, a read after a write gives the
-- value written where the variables are the same, and what it gave before otherwise.
pub get-set_system_var :
    (b : Buff) (i j v : ℕ)
    → IsValid b
    → i < dat_system_last_var
    → j < dat_system_last_var
    → dat_get_system_var (dat_set_system_var b i v) j
      ≡ (if i == j then v else dat_get_system_var b j)
unfolding dat_get_system_var
get-set_system_var b i j v valid hi hj = ground (
  arith,
  vote_agreed v,
  get_or-dat_set_system_var b i v j valid hi,
  get_or-dat_set_system_var b i v (copy_2 j) valid hi,
  get_or-dat_set_system_var b i v (copy_3 j) valid hi,
)
