-- ===== src/Sorting.antt =====
-- `quicksort_by_name` of src/system/repoCommand.c: an in-place sort of an array by the order of the
-- names, here over any test `lt` for `strcmp(a.name, b.name) < 0`. The array is a list; `junk` is
-- what a read out of bounds would give, and no run that the theorems speak of makes one.
pub mod Partition
pub mod Ordered
pub mod Total
use mathlib.Core.Option.{bind}
use balloon_suchai_flight_so.Prelude.{
  ℕ, zero, suc, ◌+◌, ◌-◌, Bool, List, Option, none, some, leb, if◌then◌else◌, get_or, set,
}

module _ {ℓ} {A : Type ℓ} (lt : A → A → Bool) (junk : A) where
  -- `for (int j = i; j > pivot; j--) commands[j] = commands[j-1]`, with `rounds` = j - pivot.
  unfoldable pub shift : List A → ℕ → ℕ → List A
  shift commands j zero = commands
  shift commands j (suc rounds) =
      shift (set commands j (get_or commands (j - 1) junk)) (j - 1) rounds

  -- The body of the loop over `i`, where the element is smaller than the pivot.
  unfoldable pub move_before : List A → ℕ → ℕ → List A
  move_before commands pivot i =
      let aux = get_or commands i junk in set (shift commands i (i - pivot)) pivot aux

  -- `for (int i = pivot+1; i <= end; i++)`, with `rounds` = end + 1 - i; it gives the array and the
  -- pivot's last place.
  unfoldable pub partition_loop : List A → ℕ → ℕ → ℕ → List A × ℕ
  partition_loop commands pivot i zero = (commands, pivot)
  partition_loop commands pivot i (suc rounds) =
      let smaller = lt (get_or commands i junk) (get_or commands pivot junk) in
      partition_loop (if smaller then move_before commands pivot i else commands)
        (if smaller then pivot + 1 else pivot) (i + 1) rounds

  -- `none` means that the fuel, which bounds the depth of the recursion, ran out.
  unfoldable pub quicksort_by_name : ℕ → List A → ℕ → ℕ → Option (List A)
  quicksort_by_name zero commands start last = none
  quicksort_by_name (suc fuel) commands start last =
      let split = partition_loop commands start (start + 1) (last - start) in
      let sorted =
        bind (quicksort_by_name fuel split.0 start split.1)
          (λ half. quicksort_by_name fuel half (split.1 + 1) last) in
      if leb last start then some commands else sorted
