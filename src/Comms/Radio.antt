-- ===== src/Comms/Radio.antt =====
-- The communication commands of src/system/cmdCOM.c, those of the Linux build. CSP and `sscanf` are
-- not part of the repository and are parameters: what CSP answers to a call, and what `sscanf`
-- stores. A handler gives its result and the calls of CSP that it makes, in order; `none` is an
-- access outside an array. A NULL `params` is `none`. `com_debug` only prints.
use mathlib.Core.Option.{bind}
use balloon_suchai_flight_so.Prelude.{
  ℕ, zero, suc, ◌+◌, ◌%◌, ◌^◌, Bool, ◌&&◌, List, [], ◌∷◌, ◌++◌, Option, none, some, ltb, ◌==◌,
  if◌then◌else◌, length, replicate, get_or,
}
use balloon_suchai_flight_so.Prelude.Words.{slt, minus_one}
use balloon_suchai_flight_so.Prelude.Text.{Text}
use balloon_suchai_flight_so.Commands.Params.{strncpy, c_string, max_str_params}
use balloon_suchai_flight_so.Telemetry.{Frame, cmd_ok, cmd_fail}
use balloon_suchai_flight_so.Comms.{port_tc, port_tm, port_rpt}

-- A call of `csp_ping`, `csp_sendto`, `csp_transaction` or `csp_buffer_free`.
pub data Call (D : Type 0) : Type 0 where
  ping : ℕ → Call D
  send_to : ℕ → ℕ → Text → Call D
  transact : ℕ → ℕ → Text → Call D
  transact_frame : ℕ → ℕ → Frame D → Call D
  free_packet : Call D

-- What CSP gives: the result of a call, and the byte of the reply to a transaction; and whether
-- there is a buffer of a size.
pub record Csp (D : Type 0) : Type 0 where
  pub result : Call D → ℕ
  pub reply_byte : Call D → ℕ
  pub buffer_get : ℕ → Bool

-- A node's number as `uint8_t`.
abbrev pub node_8 : ℕ → ℕ
node_8 node = node % 2 ^ 8

-- The string from a place of another on, its end included.
unfoldable pub from_place : ℕ → Text → Option Text
from_place zero s = some s
from_place (suc n) [] = none
from_place (suc n) (c ∷ s) = from_place n s

module _ {D : Type 0} (csp : Csp D) where
  -- The test of a transaction's result: `rc > 0 && rep[0] == 200`.
  unfoldable pub confirmed : Call D → ℕ
  confirmed call =
      if slt 0 (csp.result call) && (csp.reply_byte call == 200) then cmd_ok else cmd_fail

  unfoldable pub com_ping : (Text → Text → List ℕ) → Text → Option Text → ℕ → ℕ × List (Call D)
  com_ping sscanf fmt none nparams = (minus_one, [])
  com_ping sscanf fmt (some params) nparams =
      let args = sscanf params fmt in
      let call = ping (node_8 (get_or args 0 0)) in
      if length args == nparams
      then (if slt 0 (csp.result call) then cmd_ok else cmd_fail, call ∷ [])
      else (cmd_fail, [])

  -- Here `sscanf` gives the number of arguments it stores, the node and the message.
  unfoldable pub com_send_rpt :
      (Text → Text → ℕ × ℕ × Text) → Text → Option Text → ℕ → Option (ℕ × List (Call D))
  com_send_rpt sscanf fmt none nparams = some (minus_one, [])
  com_send_rpt sscanf fmt (some params) nparams =
      let (count, node, msg) = sscanf params fmt in
      let call = send_to (node_8 node) port_rpt (msg ++ 0 ∷ []) in
      if ltb (length msg) max_str_params
      then (if count == nparams
          then (if csp.buffer_get (length msg + 1)
              then (if csp.result call == 0
                  then some (cmd_ok, call ∷ [])
                  else some (cmd_fail, call ∷ free_packet ∷ []))
              else some (cmd_fail, []))
          else some (cmd_fail, []))
      else none

  -- Here `sscanf` gives the number of arguments it stores, the node, and the place that it reached.
  unfoldable pub com_send_cmd :
      (Text → Text → ℕ × ℕ × ℕ) → Text → Option Text → ℕ → Option (ℕ × List (Call D))
  com_send_cmd sscanf fmt none nparams = some (minus_one, [])
  com_send_cmd sscanf fmt (some params) nparams =
      let (n_args, node, next) = sscanf params fmt in
      if (n_args == nparams) && slt 1 next
      then bind (from_place next params) (λ line.
        bind (c_string (strncpy line max_str_params)) (λ msg. some (
          confirmed (transact (node_8 node) port_tc msg),
          transact (node_8 node) port_tc msg ∷ [],
        )))
      else some (cmd_fail, [])

  unfoldable pub com_send_tc_frame :
      (Text → Text → ℕ × ℕ × ℕ) → Text → Option Text → ℕ → Option (ℕ × List (Call D))
  com_send_tc_frame sscanf fmt none nparams = some (minus_one, [])
  com_send_tc_frame sscanf fmt (some params) nparams =
      let (n_args, node, next) = sscanf params fmt in
      if (n_args == nparams) && slt 1 next
      then bind (from_place next params) (λ line.
        bind (c_string (strncpy line max_str_params ++ replicate 128 0)) (λ tc_frame. some (
          confirmed (transact (node_8 node) port_tc tc_frame),
          transact (node_8 node) port_tc tc_frame ∷ [],
        )))
      else some (cmd_fail, [])

  -- `params` points to a `com_data_t`.
  unfoldable pub com_send_data : Option (Frame D) → ℕ × List (Call D)
  com_send_data none = (minus_one, [])
  com_send_data (some data_to_send) =
      let call = transact_frame data_to_send.node port_tm data_to_send in
      (confirmed call, call ∷ [])
