-- ===== src/Comms.antt =====
-- The telecommand server of src/system/taskCommunications.c. CSP hands it packets and is not part
-- of the repository: a packet is an input, and what the task asks of CSP is in the result. A
-- command that the task sends goes to the dispatcher's queue. A text is the bytes before the NUL
-- that the task writes behind the packet's data. Prints are left out.
mod Lines
mod Storing
mod Wire
mod Overrun
mod Downlink
mod Packets
pub mod Radio
mod Relay
mod Tests
mod DownlinkTests
use mathlib.Core.Option.{bind}
use balloon_suchai_flight_so.Prelude.{
  ℕ, zero, suc, ◌+◌, ◌-◌, ◌*◌, ◌%◌, Bool, ◌&&◌, List, [], ◌∷◌, Option, none, some, ltb, leb, ◌==◌,
  if◌then◌else◌, length,
}
use balloon_suchai_flight_so.Prelude.Words.{u32_mod, add_32}
use balloon_suchai_flight_so.Prelude.Text.{Text, codes}
use balloon_suchai_flight_so.Commands.{Cmd, Repo, cmd_get_str}
use balloon_suchai_flight_so.Commands.Parse.{cmd_parse_from_str}
use balloon_suchai_flight_so.Commands.Params.{cmd_add_params_raw}
use balloon_suchai_flight_so.Status.{Buff, dat_set_system_var, dat_get_system_var}
use balloon_suchai_flight_so.Status.Vars.{index}
use balloon_suchai_flight_so.Status.Vars.DatSystem.{dat_com_count_tc, dat_com_last_tc}
use balloon_suchai_flight_so.Payload.{
  PayloadId, Storage, Memory, data_map, payload_of, dat_add_payload_sample,
}
use balloon_suchai_flight_so.Telemetry.{tm_type_payload, frame_max_len}

-- The ports of src/system/include/config.h, and SCH_COMM_ADDRESS.
abbrev pub port_tm : ℕ
port_tm = 9

abbrev pub port_tc : ℕ
port_tc = 10

abbrev pub port_rpt : ℕ
port_rpt = 11

abbrev pub port_cmd : ℕ
port_cmd = 12

abbrev pub comm_address : ℕ
comm_address = 1

-- TM_TYPE_STATUS
abbrev pub tm_type_status : ℕ
tm_type_status = 1

-- `strtok` of the C library with the separator ";" (59), from where the last call stopped:
-- separators are skipped, and the bytes up to the next one are the token.
unfoldable pub skip_separators : Text → Text
skip_separators [] = []
skip_separators (c ∷ s) = let rest = skip_separators s in if c == 59 then rest else c ∷ s

unfoldable pub until_separator : Text → Text
until_separator [] = []
until_separator (c ∷ s) = let rest = until_separator s in if c == 59 then [] else c ∷ rest

unfoldable pub behind_separator : Text → Text
behind_separator [] = []
behind_separator (c ∷ s) = let rest = behind_separator s in if c == 59 then s else rest

unfoldable pub strtok : Text → Option (Text × Text)
strtok s = elim (skip_separators s) [
  | [] ↦ none
  | c ∷ t ↦ some (until_separator (c ∷ t), behind_separator (c ∷ t))
]

-- `if(new_cmd != NULL) cmd_send(new_cmd)`, in front of the commands sent later.
unfoldable pub send_if : Option Cmd → List Cmd → List Cmd
send_if none cmds = cmds
send_if (some cmd) cmds = cmd ∷ cmds

-- The loop of `com_receive_tc`: the commands sent. `none` is a fault of `cmd_parse_from_str`, or
-- the end of the fuel, the number of turns with the last test.
unfoldable pub receive_tokens : ℕ → Text → Repo → Option (List Cmd)
receive_tokens zero s r = none
receive_tokens (suc fuel) s r = elim (strtok s) [
  | none ↦ some []
  | some (cmd_str, rest) ↦
      bind (cmd_parse_from_str cmd_str r)
        (λ new_cmd. bind (receive_tokens fuel rest r) (λ cmds. some (send_if new_cmd cmds)))
]

unfoldable pub com_receive_tc : Text → Repo → Option (List Cmd)
com_receive_tc s r = receive_tokens (length s + 1) s r

unfoldable pub com_receive_cmd : Text → Repo → Option (List Cmd)
com_receive_cmd s r = bind (cmd_parse_from_str s r) (λ new_cmd. some (send_if new_cmd []))

-- A received `com_frame_t`: its data as bytes, and what a read of a struct gives from an offset on,
-- which behind the frame's 192 bytes is whatever the memory holds there.
pub record Received (D : Type 0) : Type 0 where
  pub tm_type : ℕ
  pub ndata : ℕ
  pub data8 : List ℕ
  pub struct_at : ℕ → D

-- `frame->ndata*data_map[payload].size <= COM_FRAME_MAX_LEN`; the product has 32 bits.
unfoldable pub assert_fits : ℕ → PayloadId → Bool
assert_fits ndata payload = leb ((ndata * (data_map payload).size) % u32_mod) frame_max_len

module _ {S D : Type 0} (storage : Storage S D) where
  -- The loop over the structs from `j`, with `rounds` = ndata - j. Nothing stops a read past the
  -- frame.
  unfoldable pub store_samples : Received D → PayloadId → ℕ → ℕ → Memory S → Memory S
  store_samples frame payload j zero m = m
  store_samples frame payload j (suc rounds) m =
      let delay = j * (data_map payload).size % u32_mod in
      let (ret, m') = dat_add_payload_sample storage (frame.struct_at delay) payload m in
      store_samples frame payload (j + 1) rounds m'

  -- The commands sent, and the memory. `none` is the end of the program: in `assert` for a payload's
  -- frame, and in a fault of `cmd_get_str` for a status frame.
  unfoldable pub com_receive_tm : Received D → Repo → Memory S → Option (List Cmd × Memory S)
  com_receive_tm frame r m =
      if frame.tm_type == tm_type_status
      then bind (cmd_get_str (codes "tm_parse_status") r)
          (λ cmd. some (send_if (cmd_add_params_raw cmd (some frame.data8)) [], m))
      else if leb tm_type_payload frame.tm_type
      then elim (payload_of (frame.tm_type - tm_type_payload)) [
        | none ↦ some ([], m)
        | some payload ↦
            if assert_fits frame.ndata payload
            then some ([], store_samples frame payload 0 frame.ndata m)
            else none
      ]
      else some ([], m)

-- A packet as the server reads it; `text` and `frame` are its data as a string and as a frame.
pub record Packet (D : Type 0) : Type 0 where
  pub dport : ℕ
  pub dst : ℕ
  pub text : Text
  pub frame : Received D

-- SCH_RESEND_TM_NODE
abbrev pub resend_tm_node : ℕ
resend_tm_node = 11

-- What the server asks of CSP: a reply of one byte on the connection, a copy of the packet sent to
-- a node, the packet resent to the broadcast address, or the packet handed to CSP's own service.
pub data Answer : Type 0 where
  reply : ℕ → Answer
  resend_packet : ℕ → Answer
  repeat_packet : Answer
  service : Answer

-- `count_tc` and `last_tc`.
unfoldable pub count_packet : ℕ → Buff → Buff
count_packet time b =
    dat_set_system_var
      (dat_set_system_var b (index dat_com_count_tc)
        (add_32 (dat_get_system_var b (index dat_com_count_tc)) 1))
      (index dat_com_last_tc) time

module _ {S D : Type 0} (storage : Storage S D) where
  -- One turn of the loop over the packets: the commands sent, the answers, and the memory.
  unfoldable pub serve : ℕ → Packet D → Repo → Memory S → Option (List Cmd × List Answer × Memory S)
  serve time packet r m =
      let m_1 = record m { buff = count_packet time m.buff } in
      if packet.dport == port_tc
      then bind (com_receive_tc packet.text r) (λ cmds. some (cmds, reply 200 ∷ [], m_1))
      else if packet.dport == port_tm
      then bind (com_receive_tm storage packet.frame r m_1)
          (λ (cmds, m_2). some (cmds, reply 200 ∷ resend_packet resend_tm_node ∷ [], m_2))
      else if packet.dport == port_rpt
      then some ([], if packet.dst == comm_address then repeat_packet ∷ [] else [], m_1)
      else if packet.dport == port_cmd
      then bind (com_receive_cmd packet.text r) (λ cmds. some (cmds, reply 200 ∷ [], m_1))
      else some ([], service ∷ [], m_1)
