-- ===== src/Commands/Parse.antt =====
-- `cmd_parse_from_str` of src/system/repoCommand.c. Its `sscanf(buff, "%s %n", ...)` is written out
-- as the C library documents it: spaces are skipped, the bytes up to the next space are the command,
-- spaces are skipped again, and `next` is the place reached.
use mathlib.Core.Option.{bind}
use balloon_suchai_flight_so.Prelude.{
  ℕ, ◌≡◌, refl, ap, Bool, true, false, ◌||◌, [], ◌∷◌, ◌++◌, Option, none, some, ◌==◌, leb,
  if◌then◌else◌, ◌&&◌, All,
}
use balloon_suchai_flight_so.Prelude.Text.{Text}
use balloon_suchai_flight_so.Commands.{Cmd, Repo, cmd_get_str}
use balloon_suchai_flight_so.Commands.Params.{cmd_add_params_str}

-- `isspace`
abbrev pub isspace : ℕ → Bool
isspace c = (c == 32) || (leb 9 c && leb c 13)

unfoldable pub skip_spaces : Text → Text
skip_spaces [] = []
skip_spaces (c ∷ s) = let rest = skip_spaces s in if isspace c then rest else c ∷ s

unfoldable pub token : Text → Text
token [] = []
token (c ∷ s) = let rest = token s in if isspace c then [] else c ∷ rest

unfoldable pub after_token : Text → Text
after_token [] = []
after_token (c ∷ s) = let rest = after_token s in if isspace c then c ∷ s else rest

-- The command and the bytes from `next` on; `none` where no command was found.
unfoldable pub scan : Text → Option (Text × Text)
scan buff = elim (skip_spaces buff) [
  | [] ↦ none
  | c ∷ s ↦ some (token (c ∷ s), skip_spaces (after_token (c ∷ s)))
]

-- The outer option is the fault of `cmd_get_str`. An empty `buff` is not scanned, and an empty rest
-- is passed on as "".
unfoldable pub cmd_parse_from_str : Text → Repo → Option (Option Cmd)
cmd_parse_from_str buff r = elim (scan buff) [
  | none ↦ some none
  | some (tmp_cmd, rest) ↦
      bind (cmd_get_str tmp_cmd r) (λ new_cmd. some (cmd_add_params_str new_cmd rest))
]

abbrev NoSpace : Text → Type 0
NoSpace s = All (λ c. isspace c ≡ false) s

-- A text that is empty or starts with a byte that is not a space.
abbrev Flush : Text → Type 0
Flush [] = Unit
Flush (c ∷ s) = isspace c ≡ false

skip-Flush : (s : Text) → Flush s → skip_spaces s ≡ s
unfolding skip_spaces
skip-Flush [] h = refl
skip-Flush (c ∷ s) h = rw h refl

skip-spaces :
    (blanks s : Text) → All (λ c. isspace c ≡ true) blanks → Flush s → skip_spaces (blanks ++ s) ≡ s
unfolding skip_spaces
skip-spaces [] s all h = skip-Flush s h
skip-spaces (c ∷ blanks) s (b, all) h = rw b (skip-spaces blanks s all h)

skip-All : (blanks : Text) → All (λ c. isspace c ≡ true) blanks → skip_spaces blanks ≡ []
unfolding skip_spaces
skip-All [] all = refl
skip-All (c ∷ blanks) (b, all) = rw b (skip-All blanks all)

token_split :
    (name s : Text) (b : ℕ)
    → NoSpace name
    → isspace b ≡ true
    → (token (name ++ b ∷ s) ≡ name) × (after_token (name ++ b ∷ s) ≡ b ∷ s)
unfolding token after_token
token_split [] s b all h = (rw h refl, rw h refl)
token_split (c ∷ name) s b (n, all) h =
    let (rest, behind) = token_split name s b all h in (rw n (ap (◌∷◌ c) rest), rw n behind)

scan_line :
    (c : ℕ) (name : Text) (b : ℕ) (blanks params : Text)
    → NoSpace (c ∷ name)
    → isspace b ≡ true
    → All (λ d. isspace d ≡ true) blanks
    → Flush params
    → scan (c ∷ (name ++ b ∷ (blanks ++ params))) ≡ some (c ∷ name, params)
unfolding scan
scan_line c name b blanks params all h gap flush =
    let (rest, behind) = token_split (c ∷ name) (blanks ++ params) b all h in
    rw (scan, skip-Flush (c ∷ (name ++ b ∷ (blanks ++ params))) all.0, rest, behind)
      (ap (λ p. some (c ∷ name, p)) (skip-spaces (b ∷ blanks) params (h, gap) flush))

pub parse_some :
    (buff name rest : Text) (r : Repo)
    → scan buff ≡ some (name, rest)
    → cmd_parse_from_str buff r
      ≡ bind (cmd_get_str name r) (λ cmd. some (cmd_add_params_str cmd rest))
unfolding cmd_parse_from_str bind
parse_some buff name rest r h = rw (cmd_parse_from_str, h) refl

pub parse_none : (buff : Text) (r : Repo) → scan buff ≡ none → cmd_parse_from_str buff r ≡ some none
unfolding cmd_parse_from_str
parse_none buff r h = rw (cmd_parse_from_str, h) refl

scan_blank : (blanks : Text) → All (λ c. isspace c ≡ true) blanks → scan blanks ≡ none
unfolding scan
scan_blank blanks all = rw (scan, skip-All blanks all) refl

-- A line of a command without spaces, one space or more, and parameters that do not start with a
-- space, parses to the command that `cmd_get_str` gives for the name, with those parameters, and to
-- NULL where that gives NULL; a line of spaces alone parses to NULL.
pub cmd_parse_from_str_lem :
    (c : ℕ) (name : Text) (b : ℕ) (blanks params : Text) (r : Repo)
    → All (λ d. isspace d ≡ false) (c ∷ name)
    → isspace b ≡ true
    → All (λ d. isspace d ≡ true) blanks
    → Flush params
    → (cmd_parse_from_str (c ∷ (name ++ b ∷ (blanks ++ params))) r
        ≡ bind (cmd_get_str (c ∷ name) r) (λ cmd. some (cmd_add_params_str cmd params)))
      × (cmd_parse_from_str (b ∷ blanks) r ≡ some none)
cmd_parse_from_str_lem c name b blanks params r all h gap flush = (
  parse_some _ (c ∷ name) params r (scan_line c name b blanks params all h gap flush),
  parse_none (b ∷ blanks) r (scan_blank (b ∷ blanks) (h, gap)),
)
