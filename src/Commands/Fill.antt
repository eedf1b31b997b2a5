-- ===== src/Commands/Fill.antt =====
-- The loop of `cmd_repo_init` in src/system/repoCommand.c that fills the array with "null".
use mathlib.Core.Option.{bind}
use balloon_suchai_flight_so.Prelude.{
  ℕ, zero, suc, ◌+◌, ◌-◌, ◌<◌, ◌≤◌, ◌≡◌, refl, ap, ap₂, ◌∙◌, List, [], some, arith, true, ltb,
  get_or, set, lt→ltb, le→ltb,
}
use balloon_suchai_flight_so.Prelude.Words.{slt, minus_one}
use balloon_suchai_flight_so.Prelude.Text.{codes, strcmp_eq}
use balloon_suchai_flight_so.Commands.{
  max_entries, CmdEntry, Repo, zero_entry, new_entry, still_sorted, cmd_add, fill_null,
}

abbrev null_entry : CmdEntry
null_entry = new_entry (codes "null") (codes "cmd_null") [] 0

-- The array with `n` slots from `i` on set to the null command.
unfoldable pub nulls_from : List CmdEntry → ℕ → ℕ → List CmdEntry
nulls_from es i zero = es
nulls_from es i (suc n) = nulls_from (set es i null_entry) (i + 1) n

abbrev filled : Repo → ℕ → Repo
filled r n = record r {
  cmd_list = nulls_from r.cmd_list r.cmd_index n;
  cmd_index = r.cmd_index + n;
}

null_keeps_flag :
    (r : Repo) (prev : CmdEntry) → still_sorted r prev (codes "null") ≡ some r.cmd_is_sorted
unfolding still_sorted strcmp_eq
null_keeps_flag r prev = refl

add_null :
    (r : Repo)
    → r.cmd_index < max_entries
    → cmd_add (codes "null") (codes "cmd_null") [] 0 r ≡ some (r.cmd_index + 1, filled r 1)
unfolding cmd_add bind nulls_from
add_null r h =
    rw
      (
        lt→ltb r.cmd_index max_entries h,
        null_keeps_flag r (get_or r.cmd_list (r.cmd_index - 1) zero_entry),
      )
      refl

slt_index : (i : ℕ) → i ≤ 65 → slt i 65 ≡ ltb i 65
slt_index i h = ground arith

fills :
    (n fuel : ℕ) (r : Repo)
    → r.cmd_index + suc n ≡ max_entries
    → n < fuel
    → fill_null fuel r ≡ some (filled r (suc n))
unfolding fill_null bind nulls_from
fills n zero r h e = elim e [ ]
fills zero (suc fuel) r h e =
    rw
      (
        add_null r (omega arith),
        slt_index (r.cmd_index + 1) (omega arith),
        le→ltb (r.cmd_index + 1) 65 (omega arith),
      )
      refl
fills (suc n) (suc fuel) r h e =
    rw
      (
        add_null r (omega arith),
        slt_index (r.cmd_index + 1) (omega arith),
        lt→ltb (r.cmd_index + 1) 65 (omega arith),
      )
      (fills n fuel (filled r 1) (omega arith) (omega arith)
        ∙ ap
            (λ i. some (record r {
              cmd_list = nulls_from r.cmd_list r.cmd_index (suc (suc n));
              cmd_index = i;
            }))
            (omega arith))

one_more :
    (fuel : ℕ) (r : Repo) → max_entries ≤ r.cmd_index → fill_null (suc fuel) r ≡ fill_null fuel r
unfolding fill_null cmd_add bind
one_more fuel r h = rw (le→ltb r.cmd_index max_entries h) refl

again :
    (turns fuel : ℕ) (r : Repo)
    → max_entries ≤ r.cmd_index
    → fill_null (turns + fuel) r ≡ fill_null fuel r
again zero fuel r h = ap (λ (n : ℕ). fill_null n r) (omega arith)
again (suc turns) fuel r h =
    ap (λ (n : ℕ). fill_null n r) (omega arith) ∙ one_more (turns + fuel) r h ∙ again turns fuel r h

-- From an array with a free slot, the loop that fills it ends, if it may take a turn for each free
-- slot: the slots from `cmd_index` to the last hold the null command, the sort flag is as it was,
-- and `cmd_index` is 65.
pub fill_null_ends :
    (r : Repo) (fuel : ℕ)
    → r.cmd_index < max_entries
    → max_entries ≤ fuel + r.cmd_index
    → fill_null fuel r
      ≡ some (record r {
        cmd_list = nulls_from r.cmd_list r.cmd_index (max_entries - r.cmd_index);
        cmd_index = max_entries;
      })
fill_null_ends r fuel room enough =
    let n = max_entries - r.cmd_index - 1 in
    fills n fuel r (omega arith) (omega arith)
    ∙ ap₂ (λ k i. some (record r { cmd_list = nulls_from r.cmd_list r.cmd_index k; cmd_index = i }))
        (omega arith) (omega arith)

-- From a full array, the loop never ends: `cmd_add` gives CMD_ERROR, which is less than 65, and
-- leaves the repository as it is, so that any number of turns is followed by the same loop over the
-- same repository, whatever the turns that are left.
pub fill_null_hangs :
    (r : Repo) (turns fuel : ℕ)
    → max_entries ≤ r.cmd_index
    → (cmd_add (codes "null") (codes "cmd_null") [] 0 r ≡ some (minus_one, r))
      × (slt minus_one max_entries ≡ true)
      × (fill_null (turns + fuel) r ≡ fill_null fuel r)
unfolding cmd_add
fill_null_hangs r turns fuel full =
    (rw (le→ltb r.cmd_index max_entries full) refl, refl, again turns fuel r full)
