-- ===== src/Status.antt =====
-- The status repository of src/system/repoData.c: `dat_set_system_var`, `dat_get_system_var` and
-- the untripled pair kept for testing, with SCH_STORAGE_MODE 0 and SCH_STORAGE_TRIPLE_WR 1 (the
-- setting of src/system/include/config.h). The state is `DAT_SYSTEM_VAR_BUFF`, three copies of
-- each variable. Each function takes and gives `repo_data_sem` round its accesses, on every path,
-- so it is one atomic step here. A value is the bit pattern of an `int`.
pub mod Vars
pub mod Access
pub mod Faults
pub mod Init
mod Tests
use balloon_suchai_flight_so.Prelude.{ℕ, zero, suc, ◌+◌, ◌*◌, Bool, ◌||◌, List, get_or, set}
use balloon_suchai_flight_so.Prelude.{◌==◌, if◌then◌else◌, length, replicate, ◌≡◌}
use balloon_suchai_flight_so.Prelude.Words.{int_max, add_32}
use Vars.{DatSystem, dat_system_last_var, index}
use Vars.DatSystem.{dat_obc_hrs_wo_reset, dat_obc_reset_counter, dat_obc_sw_wdt}

abbrev pub Buff : Type 0
Buff = List ℕ

-- `DAT_SYSTEM_VAR_BUFF`, zeroed as static storage is.
abbrev pub blank : Buff
blank = replicate (dat_system_last_var * 3) 0

-- What each operation needs of the buffer.
abbrev pub IsValid : Buff → Type 0
IsValid b = length b ≡ dat_system_last_var * 3

abbrev pub copy_2 : ℕ → ℕ
copy_2 i = i + dat_system_last_var

abbrev pub copy_3 : ℕ → ℕ
copy_3 i = i + dat_system_last_var * 2

-- `_dat_set_system_var` and `_dat_get_system_var`: the first copy only.
unfoldable pub set_single : Buff → ℕ → ℕ → Buff
set_single b i value = set b i value

unfoldable pub get_single : Buff → ℕ → ℕ
get_single b i = get_or b i 0

unfoldable pub dat_set_system_var : Buff → ℕ → ℕ → Buff
dat_set_system_var b i value =
    let b1 = set b i value in let b2 = set b1 (copy_2 i) value in set b2 (copy_3 i) value

-- Two copies out of three decide; the first copy where all differ.
unfoldable pub vote : ℕ → ℕ → ℕ → ℕ
vote value_1 value_2 value_3 =
    if (value_1 == value_2) || (value_1 == value_3)
    then value_1
    else if value_2 == value_3
    then value_2
    else value_1

unfoldable pub dat_get_system_var : Buff → ℕ → ℕ
dat_get_system_var b i = vote (get_or b i 0) (get_or b (copy_2 i) 0) (get_or b (copy_3 i) 0)

-- `for(index=0; index<dat_system_last_var; index++) dat_set_system_var(index, value)`, with the
-- number of rounds left.
unfoldable pub fill_from : Buff → ℕ → ℕ → ℕ → Buff
fill_from b i value zero = b
fill_from b i value (suc rounds) = fill_from (dat_set_system_var b i value) (i + 1) value rounds

-- The variables' part of `dat_repo_init` at storage mode 0.
unfoldable pub init_vars : Buff → Buff
init_vars b =
    let reset = fill_from b 0 int_max dat_system_last_var in
    let alive = dat_set_system_var reset (index dat_obc_hrs_wo_reset) 0 in
    let count = dat_get_system_var alive (index dat_obc_reset_counter) in
    let counted = dat_set_system_var alive (index dat_obc_reset_counter) (add_32 count 1) in
    dat_set_system_var counted (index dat_obc_sw_wdt) 0
