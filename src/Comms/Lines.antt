-- ===== src/Comms/Lines.antt =====
-- How `com_receive_tc` of src/system/taskCommunications.c splits a telecommand frame.
use mathlib.Core.Option.{bind}
use balloon_suchai_flight_so.Prelude.{
  ℕ, zero, suc, ◌+◌, ◌<◌, ◌≤◌, ◌≡◌, ◌≢◌, refl, sym, ap, ap₂, ◌∙◌, true, false, List, [], ◌∷◌, ◌++◌,
  Option, some, arith, ◌==◌, if◌then◌else◌, length, get_or, subst, All, ◌⊎◌, Bool-cases, inl, inr,
}
use balloon_suchai_flight_so.Prelude.Text.{Text}
use balloon_suchai_flight_so.Commands.{Cmd, Repo}
use balloon_suchai_flight_so.Commands.Parse.{cmd_parse_from_str}
use balloon_suchai_flight_so.Comms.{
  skip_separators, until_separator, behind_separator, strtok, send_if, receive_tokens,
  com_receive_tc,
}

-- The parts of a text between its separators, the empty ones too, and those that are not empty.
cons_head : ℕ → List Text → List Text
cons_head c [] = (c ∷ []) ∷ []
cons_head c (t ∷ ts) = (c ∷ t) ∷ ts

unfoldable pub fields : Text → List Text
unfolding cons_head
fields [] = [] ∷ []
fields (c ∷ s) = let rest = fields s in if c == 59 then [] ∷ rest else cons_head c rest

unfoldable pub not_empty : List Text → List Text
not_empty [] = []
not_empty ([] ∷ ts) = not_empty ts
not_empty ((c ∷ t) ∷ ts) = (c ∷ t) ∷ not_empty ts

-- The commands that the lines parse to, in order.
unfoldable pub parse_all : List Text → Repo → Option (List Cmd)
parse_all [] r = some []
parse_all (t ∷ ts) r =
    bind (cmd_parse_from_str t r)
      (λ new_cmd. bind (parse_all ts r) (λ cmds. some (send_if new_cmd cmds)))

abbrev words : Text → List Text
words s = not_empty (fields s)

fields-until :
    (s : Text)
    → (others : List Text) × (fields s ≡ until_separator s ∷ others)
      × (not_empty others ≡ words (behind_separator s))
unfolding fields not_empty until_separator behind_separator cons_head
fields-until [] = ([], refl, refl)
fields-until (c ∷ s) = elim (Bool-cases (c == 59)) [
  | inl e ↦ (fields s, rw e refl, rw e refl)
  | inr e ↦ let (others, f, g) = fields-until s in (others, rw (e, f) refl, rw e g)
]

skip-separator : (c : ℕ) (s : Text) → (c == 59) ≡ true → skip_separators (c ∷ s) ≡ skip_separators s
unfolding skip_separators
skip-separator c s e = rw e refl

skip-other : (c : ℕ) (s : Text) → (c == 59) ≡ false → skip_separators (c ∷ s) ≡ c ∷ s
unfolding skip_separators
skip-other c s e = rw e refl

words-separator : (c : ℕ) (s : Text) → (c == 59) ≡ true → words (c ∷ s) ≡ words s
unfolding fields not_empty
words-separator c s e = rw e refl

words-skip : (s : Text) → words s ≡ words (skip_separators s)
unfolding fields not_empty skip_separators
words-skip [] = refl
words-skip (c ∷ s) = elim (Bool-cases (c == 59)) [
  | inl e ↦ words-separator c s e ∙ words-skip s ∙ ap words (sym (skip-separator c s e))
  | inr e ↦ ap words (sym (skip-other c s e))
]

-- A text that `skip_separators` gives starts with another byte, and is no longer.
skip-head :
    (s : Text) (c : ℕ) (t : Text)
    → skip_separators s ≡ c ∷ t
    → ((c == 59) ≡ false) × (length (c ∷ t) ≤ length s)
unfolding skip_separators
skip-head [] c t h = cc
skip-head (d ∷ s) c t h = elim (Bool-cases (d == 59)) [
  | inl e ↦
      let (other, le) = skip-head s c t (sym (skip-separator d s e) ∙ h) in
      (other, omega (arith, le))
  | inr e ↦
      let same : d ∷ s ≡ c ∷ t = sym (skip-other d s e) ∙ h in
      (
        sym (ap (λ l. get_or l 0 0 == 59) same) ∙ e,
        subst (λ l. length l ≤ length (d ∷ s)) same (omega arith),
      )
]

length-behind : (s : Text) → length (behind_separator s) ≤ length s
unfolding behind_separator
length-behind [] = omega arith
length-behind (c ∷ s) =
    let rest = length-behind s in
    elim (Bool-cases (c == 59)) [ inl e ↦ rw e (omega arith) | inr e ↦ rw e (omega (arith, rest)) ]

-- A token of `strtok` is the first part that is not empty, and what is behind it is shorter.
strtok-some :
    (s : Text) (c : ℕ) (t : Text)
    → skip_separators s ≡ c ∷ t
    → (words s ≡ until_separator (c ∷ t) ∷ words (behind_separator (c ∷ t)))
      × (length (behind_separator (c ∷ t)) < length s)
unfolding not_empty until_separator behind_separator
strtok-some s c t h =
    let (other, le) = skip-head s c t h in
    let (others, f, g) = fields-until (c ∷ t) in
    let token : until_separator (c ∷ t) ≡ c ∷ until_separator t = rw other refl in
    let behind : behind_separator (c ∷ t) ≡ behind_separator t = rw other refl in
    (
      words-skip s
          ∙ ap words h
          ∙ ap not_empty f
          ∙ ap (λ u. not_empty (u ∷ others)) token
          ∙ ap₂ (λ u l. u ∷ l) (sym token) g,
      omega (arith, le, ap length behind, length-behind t),
    )

Text-cases : (s : Text) → (s ≡ []) ⊎ ((c : ℕ) × (t : Text) × (s ≡ c ∷ t))
Text-cases [] = inl refl
Text-cases (c ∷ t) = inr (c, t, refl)

receive-none :
    (fuel : ℕ) (s : Text) (r : Repo)
    → skip_separators s ≡ []
    → receive_tokens (suc fuel) s r ≡ some []
unfolding receive_tokens strtok
receive-none fuel s r h = rw (receive_tokens, strtok, h) refl

receive-some :
    (fuel : ℕ) (s : Text) (r : Repo) (c : ℕ) (t : Text)
    → skip_separators s ≡ c ∷ t
    → receive_tokens (suc fuel) s r
      ≡ bind (cmd_parse_from_str (until_separator (c ∷ t)) r) (λ new_cmd.
        bind
          (receive_tokens fuel (behind_separator (c ∷ t)) r)
          (λ cmds. some (send_if new_cmd cmds)))
unfolding receive_tokens strtok
receive-some fuel s r c t h = rw (receive_tokens, strtok, h) refl

-- On enough fuel the loop parses the parts that are not empty.
receive_tokens-words :
    (fuel : ℕ) (s : Text) (r : Repo)
    → length s < fuel
    → receive_tokens fuel s r ≡ parse_all (words s) r
unfolding parse_all fields not_empty
receive_tokens-words zero s r h = absurd (omega arith)
receive_tokens-words (suc fuel) s r h = elim (Text-cases (skip_separators s)) [
  | inl e ↦ receive-none fuel s r e ∙ ap (λ l. parse_all l r) (sym (words-skip s ∙ ap words e))
  | inr (c, t, e) ↦
      let (first, shorter) = strtok-some s c t e in
      let rest = receive_tokens-words fuel (behind_separator (c ∷ t)) r (omega (arith, shorter)) in
      receive-some fuel s r c t e
      ∙ ap
          (λ l.
            bind (cmd_parse_from_str (until_separator (c ∷ t)) r)
              (λ new_cmd. bind l (λ cmds. some (send_if new_cmd cmds))))
          rest
      ∙ ap (λ l. parse_all l r) (sym first)
]

-- A telecommand frame of any bytes: the loop ends, and sends the commands that the parts between
-- the semicolons parse to, the empty parts left out, in the order of the parts.
pub com_receive_tc_lem :
    (s : Text) (r : Repo) → com_receive_tc s r ≡ parse_all (not_empty (fields s)) r
unfolding com_receive_tc
com_receive_tc_lem s r = receive_tokens-words (length s + 1) s r (omega arith)

-- The lines with a semicolon between each two.
unfoldable pub join : List Text → Text
join [] = []
join (t ∷ []) = t
join (t ∷ u ∷ ts) = t ++ 59 ∷ join (u ∷ ts)

-- A line that is not empty and has no semicolon.
abbrev pub IsLine : Text → Type 0
IsLine t = (t ≢ []) × All (λ c. (c == 59) ≡ false) t

fields-line :
    (t : Text) (s : Text)
    → All (λ c. (c == 59) ≡ false) t
    → (fields (t ++ 59 ∷ s) ≡ t ∷ fields s) × (fields t ≡ t ∷ [])
unfolding fields cons_head
fields-line [] s h = (refl, refl)
fields-line (c ∷ t) s (e, h) = let (f, g) = fields-line t s h in (rw (e, f) refl, rw (e, g) refl)

not_empty-line : (t : Text) (ts : List Text) → t ≢ [] → not_empty (t ∷ ts) ≡ t ∷ not_empty ts
unfolding not_empty
not_empty-line [] ts h = absurd (h refl)
not_empty-line (c ∷ t) ts h = refl

words-join : (ts : List Text) → All IsLine ts → words (join ts) ≡ ts
unfolding join fields not_empty
words-join [] h = refl
words-join (t ∷ []) ((ne, line), h) =
    ap not_empty ((fields-line t [] line).1) ∙ not_empty-line t [] ne
words-join (t ∷ u ∷ ts) ((ne, line), h) =
    ap not_empty ((fields-line t (join (u ∷ ts)) line).0)
    ∙ not_empty-line t (fields (join (u ∷ ts))) ne
    ∙ ap (◌∷◌ t) (words-join (u ∷ ts) h)

-- A frame of command lines joined by semicolons, each line not empty and without a semicolon, sends
-- the commands that the lines parse to, in their order.
com_receive_tc-join :
    (ts : List Text) (r : Repo) → All IsLine ts → com_receive_tc (join ts) r ≡ parse_all ts r
com_receive_tc-join ts r h =
    com_receive_tc_lem (join ts) r ∙ ap (λ l. parse_all l r) (words-join ts h)
