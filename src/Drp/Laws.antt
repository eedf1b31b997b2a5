-- ===== src/Drp/Laws.antt =====
-- What the data repository's commands of src/system/cmdDRP.c leave in the status variables.
use balloon_suchai_flight_so.Prelude.{
  ℕ, zero, suc, ◌+◌, ◌<◌, ◌≤◌, ◌≡◌, refl, ◌∙◌, List, some, arith, true, length, get_or, ◌==◌,
  if◌then◌else◌,
}
use balloon_suchai_flight_so.Prelude.Words.{add_32}
use balloon_suchai_flight_so.Prelude.Text.{Text}
use balloon_suchai_flight_so.Status.{Buff, IsValid, dat_set_system_var, dat_get_system_var}
use balloon_suchai_flight_so.Status.Vars.{dat_system_last_var, index}
use balloon_suchai_flight_so.Status.Vars.DatSystem.{dat_obc_hrs_alive, dat_obc_hrs_wo_reset}
use balloon_suchai_flight_so.Status.Access.{get-set_system_var, dat_set_system_var-IsValid}
use balloon_suchai_flight_so.Drp.{
  cmd_ok, test_var, test_vars, drp_test_system_vars, drp_update_hours_alive,
}

test_var_keeps :
    (b : Buff) (i : ℕ) (r : ℕ)
    → IsValid b
    → i < 57
    → ((test_var i (r, b)).0 ≡ r) × IsValid ((test_var i (r, b)).1)
unfolding test_var
test_var_keeps b i r valid h =
    let valid' = dat_set_system_var-IsValid b i 85 valid in
    (ground (arith, get-set_system_var b i i 85 valid h h), dat_set_system_var-IsValid _ i _ valid')

test_var_reads :
    (b : Buff) (i j : ℕ) (r : ℕ)
    → IsValid b
    → i < 57
    → j < 57
    → dat_get_system_var ((test_var i (r, b)).1) j ≡ dat_get_system_var b j
unfolding test_var
test_var_reads b i j r valid h hj =
    let valid' = dat_set_system_var-IsValid b i 85 valid in
    ground (
      arith,
      get-set_system_var (dat_set_system_var b i 85) i j (dat_get_system_var b i) valid' h,
      get-set_system_var b i j 85 valid h,
    )

test_vars_lem :
    (rounds i j r : ℕ) (b : Buff)
    → IsValid b
    → i + rounds ≤ 57
    → j < 57
    → ((test_vars i rounds (r, b)).0 ≡ r)
      × (dat_get_system_var ((test_vars i rounds (r, b)).1) j ≡ dat_get_system_var b j)
unfolding test_vars
test_vars_lem zero i j r b valid h hj = (refl, refl)
test_vars_lem (suc rounds) i j r b valid h hj =
    let t = test_var i (r, b) in
    let (same, valid') = test_var_keeps b i r valid (omega arith) in
    let (result, reads) = test_vars_lem rounds (i + 1) j (t.0) (t.1) valid' (omega arith) hj in
    (result ∙ same, reads ∙ test_var_reads b i j r valid (omega arith) hj)

-- On a buffer of 171 slots, the self test of the variables passes, and each variable reads after it
-- as before.
test_system_vars_passes :
    (b : Buff) (j : ℕ)
    → IsValid b
    → j < dat_system_last_var
    → ((drp_test_system_vars b).0 ≡ cmd_ok)
      × (dat_get_system_var ((drp_test_system_vars b).1) j ≡ dat_get_system_var b j)
unfolding drp_test_system_vars
test_system_vars_passes b j valid h = test_vars_lem 57 0 j cmd_ok b valid (omega arith) h

-- On a buffer of 171 slots, where `sscanf` reads as many numbers as the command has,
-- `drp_update_hours_alive` adds the first one, as an `int`, to the time alive and to the time
-- without a reset, and changes no other variable.
update_hours_adds :
    (sscanf : Text → Text → List ℕ) (fmt params : Text) (nparams : ℕ) (b : Buff) (j : ℕ)
    → IsValid b
    → length (sscanf params fmt) ≡ nparams
    → j < dat_system_last_var
    → (b' : Buff) × (drp_update_hours_alive sscanf fmt (some params) nparams b ≡ (cmd_ok, b'))
      × (dat_get_system_var b' j ≡ (
          if (j == index dat_obc_hrs_alive)
          then add_32 (dat_get_system_var b j) (get_or (sscanf params fmt) 0 0)
          else if (j == index dat_obc_hrs_wo_reset)
          then add_32 (dat_get_system_var b j) (get_or (sscanf params fmt) 0 0)
          else dat_get_system_var b j))
unfolding drp_update_hours_alive
update_hours_adds sscanf fmt params nparams b j valid count h =
    let v = get_or (sscanf params fmt) 0 0 in
    let b' = dat_set_system_var b 2 (add_32 (dat_get_system_var b 2) v) in
    let valid' = dat_set_system_var-IsValid b 2 (add_32 (dat_get_system_var b 2) v) valid in
    let counted : (length (sscanf params fmt) == nparams) ≡ true = ground (arith, count) in
    (
      dat_set_system_var b' 3 (add_32 (dat_get_system_var b' 3) v),
      rw counted refl,
      ground (
        arith,
        get-set_system_var b' 3 j (add_32 (dat_get_system_var b' 3) v) valid',
        get-set_system_var b 2 j (add_32 (dat_get_system_var b 2) v) valid,
        get-set_system_var b 2 3 (add_32 (dat_get_system_var b 2) v) valid,
      ),
    )
