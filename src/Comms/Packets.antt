-- ===== src/Comms/Packets.antt =====
-- What the loop of src/system/taskCommunications.c does with each packet.
use mathlib.Core.Option.{bind}
use balloon_suchai_flight_so.Prelude.{
  ℕ, suc, ◌+◌, ◌<◌, ◌≡◌, ◌≢◌, refl, ap, ◌∙◌, ◌⊎◌, inl, inr, true, false, List, [], ◌∷◌, Option,
  none, some, arith, ◌==◌, ltb, if◌then◌else◌, length, get_or, All, Bool-cases, Option-cases, ◌||◌,
}
use balloon_suchai_flight_so.Prelude.Words.{add_32, slt}
use balloon_suchai_flight_so.Prelude.Text.{Text, strcmp_eq}
use balloon_suchai_flight_so.Commands.{
  Cmd, Repo, CmdEntry, zero_entry, cmd_of, find_name, cmd_get_idx, cmd_get_str,
}
use balloon_suchai_flight_so.Commands.Lookup.{IsNamed}
use balloon_suchai_flight_so.Commands.Lookup
use balloon_suchai_flight_so.Commands.Parse.{cmd_parse_from_str, scan, parse_none, parse_some}
use balloon_suchai_flight_so.Commands.Params.{cmd_add_params_str}
use balloon_suchai_flight_so.Status.{Buff, IsValid, dat_get_system_var, dat_set_system_var}
use balloon_suchai_flight_so.Status.Vars.{index, dat_system_last_var}
use balloon_suchai_flight_so.Status.Vars.DatSystem.{dat_com_count_tc, dat_com_last_tc}
use balloon_suchai_flight_so.Status.Access.{get-set_system_var, dat_set_system_var-IsValid}
use balloon_suchai_flight_so.Payload.{Storage, Memory}
use balloon_suchai_flight_so.Comms.{
  Packet, Answer, reply, repeat_packet, service, serve, count_packet, port_tc, port_tm, port_cmd,
  port_rpt, comm_address, com_receive_tc, com_receive_cmd, send_if,
}
use balloon_suchai_flight_so.Comms.Lines.{com_receive_tc_lem, parse_all, fields, not_empty}

-- The search ends within the array.
find_name-total :
    (name : Text) (i : ℕ) (es : List CmdEntry)
    → All IsNamed es
    → (find_name name i es ≡ some none)
      ⊎ ((k : ℕ) × (k < length es) × (find_name name i es ≡ some (some (i + k))))
unfolding find_name
find_name-total name i [] all = inl refl
find_name-total name i (e ∷ es) ((n, q), all) = elim (Bool-cases (strcmp_eq name n)) [
  | inl same ↦ inr (0, omega arith, rw (q, same) (ap (λ x. some (some x)) (omega arith)))
  | inr other ↦ elim (find_name-total name (i + 1) es all) [
    | inl absent ↦ inl (rw (q, other) absent)
    | inr (k, l, found) ↦
        inr (suc k, omega (arith, l), rw (q, other) (found ∙ ap (λ x. some (some x)) (omega arith)))
  ]
]

get_str-total :
    (name : Text) (r : Repo) → Lookup.IsValid r → (c : Option Cmd) × (cmd_get_str name r ≡ some c)
unfolding cmd_get_str cmd_get_idx bind
get_str-total name r (size, all) = elim (find_name-total name 0 r.cmd_list all) [
  | inl absent ↦ (none, rw absent refl)
  | inr (k, l, found) ↦
      let below : slt (0 + k) 65 ≡ true = ground (arith, size, l) in
      let near : ltb (0 + k) (length r.cmd_list) ≡ true = ground (arith, l) in
      (some (cmd_of (0 + k) (get_or r.cmd_list (0 + k) zero_entry)), rw (found, below, near) refl)
]

parse-total :
    (s : Text) (r : Repo) → Lookup.IsValid r → (c : Option Cmd) × (cmd_parse_from_str s r ≡ some c)
unfolding bind
parse-total s r v = elim (Option-cases (scan s)) [
  | inl h ↦ (none, parse_none s r h)
  | inr ((name, rest), h) ↦
      let (c, e) = get_str-total name r v in
      (cmd_add_params_str c rest, parse_some s name rest r h ∙ rw e refl)
]

parse_all-total :
    (ts : List Text) (r : Repo)
    → Lookup.IsValid r
    → (cmds : List Cmd) × (parse_all ts r ≡ some cmds)
unfolding parse_all bind
parse_all-total [] r v = ([], refl)
parse_all-total (t ∷ ts) r v =
    let (c, e) = parse-total t r v in
    let (cmds, f) = parse_all-total ts r v in (send_if c cmds, rw (e, f) refl)

count_packet_lem :
    (time : ℕ) (b : Buff) (j : ℕ)
    → IsValid b
    → j < dat_system_last_var
    → dat_get_system_var (count_packet time b) j ≡ (
        if index dat_com_last_tc == j
        then time
        else if index dat_com_count_tc == j
        then add_32 (dat_get_system_var b (index dat_com_count_tc)) 1
        else dat_get_system_var b j)
unfolding count_packet
count_packet_lem time b j v h =
    let k = index dat_com_count_tc in
    let n = add_32 (dat_get_system_var b k) 1 in
    get-set_system_var (dat_set_system_var b k n) (index dat_com_last_tc) j time
      (dat_set_system_var-IsValid b k n v) (omega arith) h
    ∙ ap (λ x. if index dat_com_last_tc == j then time else x)
        (get-set_system_var b k j n v (omega arith) h)

-- The answers to a packet on each port but the telemetry's: a telecommand and a console command
-- get one reply of 200.
abbrev pub answers_on : ℕ → ℕ → List Answer
answers_on port dst =
    if (port == port_tc) || (port == port_cmd)
    then reply 200 ∷ []
    else if port == port_rpt
    then (if dst == comm_address then repeat_packet ∷ [] else [])
    else service ∷ []

module _ {S D : Type 0} (storage : Storage S D) where
  serve-total :
      (time : ℕ) (packet : Packet D) (r : Repo) (m : Memory S)
      → Lookup.IsValid r
      → packet.dport ≢ port_tm
      → (cmds : List Cmd) × (serve storage time packet r m
          ≡ some (
            cmds,
            answers_on packet.dport packet.dst,
            record m { buff = count_packet time m.buff },
          ))
  unfolding serve com_receive_cmd bind
  serve-total time packet r m v h =
      let (cmds, e) = parse_all-total (not_empty (fields packet.text)) r v in
      let tc : com_receive_tc packet.text r ≡ some cmds = com_receive_tc_lem packet.text r ∙ e in
      let (c, f) = parse-total packet.text r v in
      let not_tm : (packet.dport == port_tm) ≡ false = ground (arith, h) in
      elim (Bool-cases (packet.dport == port_tc)) [
        | inl p ↦ (cmds, rw (p, tc) refl)
        | inr p ↦ elim (Bool-cases (packet.dport == port_rpt)) [
          | inl q ↦
              let not_cmd : (packet.dport == port_cmd) ≡ false = ground (arith, q) in
              ([], rw (p, not_tm, q, not_cmd) refl)
          | inr q ↦ elim (Bool-cases (packet.dport == port_cmd)) [
            | inl u ↦ (send_if c [], rw (p, not_tm, q, u, f) refl)
            | inr u ↦ ([], rw (p, not_tm, q, u) refl)
          ]
        ]
      ]

  -- With a repository whose 65 slots all have a name and a buffer of 171 slots, a packet of any
  -- bytes on any port but the telemetry's is served: a telecommand frame or a console command is
  -- replied to by exactly one 200, a packet for the repeater is repeated where it is addressed to
  -- this node and else is not answered, and any other goes to CSP's service; the storage stays. Of
  -- any of these packets, telecommand or not, `dat_com_count_tc` grows by one and `dat_com_last_tc` is
  -- the present time; each other variable stays.
  pub every_packet_is_served :
      (time : ℕ) (packet : Packet D) (r : Repo) (m : Memory S) (j : ℕ)
      → Lookup.IsValid r
      → IsValid m.buff
      → packet.dport ≢ port_tm
      → j < dat_system_last_var
      → (cmds : List Cmd) × (m' : Memory S) × (serve storage time packet r m
          ≡ some (cmds, answers_on packet.dport packet.dst, m'))
        × (m'.store ≡ m.store)
        × (dat_get_system_var m'.buff j ≡ (
            if index dat_com_last_tc == j
            then time
            else if index dat_com_count_tc == j
            then add_32 (dat_get_system_var m.buff (index dat_com_count_tc)) 1
            else dat_get_system_var m.buff j))
  every_packet_is_served time packet r m j v vb h hj =
      let (cmds, e) = serve-total time packet r m v h in
      (
        cmds,
        record m { buff = count_packet time m.buff },
        e,
        refl,
        count_packet_lem time m.buff j vb hj,
      )
