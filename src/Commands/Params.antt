-- ===== src/Commands/Params.antt =====
-- The parameters of a command in src/system/repoCommand.c: `cmd_add_params_raw`,
-- `cmd_add_params_str`, `cmd_add_params_var`, `fix_fmt`, `cmd_null`.
use balloon_suchai_flight_so.Prelude.{
  ℕ, zero, suc, ◌+◌, ◌≤◌, ◌<◌, ◌≡◌, refl, List, [], ◌∷◌, ◌++◌, Option, none, some, arith, ltb, ◌==◌,
  if◌then◌else◌, length, All, ◌≢◌, ◌∙◌, Bool-cases, ltb→lt, lt→ltb, inl, inr,
}
use balloon_suchai_flight_so.Prelude.Words.{minus_one}
use balloon_suchai_flight_so.Prelude.Text.{Text}
use balloon_suchai_flight_so.Commands.{Cmd}

-- SCH_CMD_MAX_STR_PARAMS
abbrev pub max_str_params : ℕ
max_str_params = 64

-- The `n` bytes that `strncpy` writes: the string's, then zeros.
unfoldable pub strncpy : Text → ℕ → List ℕ
strncpy s zero = []
strncpy [] (suc n) = 0 ∷ strncpy [] n
strncpy (c ∷ s) (suc n) = c ∷ strncpy s n

-- The string that a buffer holds, `none` where it has no terminator.
unfoldable pub c_string : List ℕ → Option Text
c_string [] = none
c_string (b ∷ bs) =
    let rest = c_string bs in
    if b == 0 then some [] else elim rest [ none ↦ none | some s ↦ some (b ∷ s) ]

-- `params` is `none` for NULL.
unfoldable pub cmd_add_params_raw : Option Cmd → Option (List ℕ) → Option Cmd
cmd_add_params_raw none params = none
cmd_add_params_raw (some cmd) none = some cmd
cmd_add_params_raw (some cmd) (some params) = some (record cmd { params = some params })

unfoldable pub cmd_add_params_str : Option Cmd → Text → Option Cmd
cmd_add_params_str cmd params =
    let len_param = if ltb max_str_params (length params) then max_str_params else length params in
    elim cmd [
      | none ↦ none
      | some c ↦
          if ltb 0 len_param
          then some (record c { params = some (strncpy params (len_param + 1)) })
          else some c
    ]

-- `vsprintf` of the C library, which prints the arguments by the format, is a parameter; the buffer
-- on the stack has 64 bytes, and `none` in the result is a write past them.
unfoldable pub cmd_add_params_var {ℓ} :
    {Args : Type ℓ} → (Option Text → Args → Text) → Option Cmd → Args → Option (Option Cmd)
cmd_add_params_var vsprintf none args = some none
cmd_add_params_var vsprintf (some cmd) args =
    let str_params = vsprintf cmd.fmt args in
    if ltb (length str_params) max_str_params
    then some (cmd_add_params_str (some cmd) str_params)
    else none

-- The loop of `fix_fmt`: the bytes that it stores, a comma as a space.
unfoldable pub commas_to_spaces : Text → Text
commas_to_spaces [] = []
commas_to_spaces (c ∷ s) = (if c == 44 then 32 else c) ∷ commas_to_spaces s

-- The byte that `fix_fmt` steps over: it is as `malloc` gave it, and ends the string if it is 0.
abbrev pub stepped_over : ℕ → Text
stepped_over junk = if junk == 0 then [] else junk ∷ []

-- The string that `fix_fmt` gives, with `junk` for the byte of the memory that it leaves before the
-- terminator; `none` is a write past the 64 bytes that it allocates.
unfoldable pub fix_fmt : ℕ → Text → Option Text
fix_fmt junk fmt =
    if ltb (length fmt + 1) max_str_params
    then some (commas_to_spaces fmt ++ stepped_over junk)
    else none

-- `cmd_null` ignores its arguments and gives CMD_ERROR.
unfoldable pub cmd_null : Text → Text → ℕ → ℕ
cmd_null fparams params nparam = minus_one

pub c_string-strncpy :
    (s : Text) (n : ℕ) → All (λ c. c ≢ 0) s → length s < n → c_string (strncpy s n) ≡ some s
unfolding strncpy c_string
c_string-strncpy s zero all h = elim h [ ]
c_string-strncpy [] (suc n) all h = refl
c_string-strncpy (c ∷ s) (suc n) (nz, all) h =
    let rest = c_string-strncpy s n all (omega arith) in rw rest (ground arith)

c_string-strncpy-long :
    (s : Text) (n : ℕ) → All (λ c. c ≢ 0) s → n ≤ length s → c_string (strncpy s n) ≡ none
unfolding strncpy c_string
c_string-strncpy-long s zero all h = refl
c_string-strncpy-long [] (suc n) all h = absurd (omega arith)
c_string-strncpy-long (c ∷ s) (suc n) (nz, all) h =
    let rest = c_string-strncpy-long s n all (omega arith) in rw rest (ground arith)

-- A parameter string without NUL bytes that is not empty goes into a buffer of the command, and
-- reads back from it as it was given where it has at most 64 bytes; of a longer one the buffer
-- holds no terminator.
pub params_str_round_trip :
    (c : Cmd) (s : Text)
    → All (λ b. b ≢ 0) s
    → 0 < length s
    → (buffer : List ℕ) × (cmd_add_params_str (some c) s ≡ some (record c { params = some buffer }))
      × (c_string buffer ≡ (if ltb 64 (length s) then none else some s))
unfolding cmd_add_params_str
params_str_round_trip c s nz pos = elim (Bool-cases (ltb 64 (length s))) [
  | inl long ↦ (
    strncpy s 65,
    rw long refl,
    c_string-strncpy-long s 65 nz (ltb→lt 64 (length s) long) ∙ rw long refl,
  )
  | inr fits ↦ (
    strncpy s (length s + 1),
    rw (fits, lt→ltb 0 (length s) pos) refl,
    c_string-strncpy s (length s + 1) nz (omega arith) ∙ rw fits refl,
  )
]
