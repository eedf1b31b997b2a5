-- ===== src/StatusReport/Send.antt =====
-- `tm_send_status` and `tm_parse_status` of src/system/cmdTM.c.
use balloon_suchai_flight_so.Prelude.{
  ℕ, ◌%◌, ◌^◌, List, [], ◌∷◌, Option, none, some, ltb, ◌==◌, if◌then◌else◌, length, get_or,
}
use balloon_suchai_flight_so.Prelude.Words.{minus_one}
use balloon_suchai_flight_so.Prelude.Text.{Text}
use balloon_suchai_flight_so.Status.{Buff}
use balloon_suchai_flight_so.Telemetry.{cmd_ok, cmd_fail, frame_max_len}
use balloon_suchai_flight_so.Comms.{tm_type_status}
use balloon_suchai_flight_so.Comms.Radio.{Csp, Call, com_send_data}
use balloon_suchai_flight_so.StatusReport.Struct.{DatStatus, sizeof_dat_status}
use balloon_suchai_flight_so.StatusReport.Pack.{Row, dat_status_to_struct, dat_print_status}

-- The result, and what is printed.
unfoldable pub tm_parse_status : (ℕ → ℕ) → Option DatStatus → ℕ × List Row
tm_parse_status to_ulong none = (minus_one, [])
tm_parse_status to_ulong (some status) = (cmd_ok, dat_print_status to_ulong status)

module _ (of_int to_int : ℕ → ℕ) where
  -- The result and the calls of CSP; `none` is the end of the program in `assert`. The debug build's
  -- print of the struct is left out.
  unfoldable pub tm_send_status :
      Csp DatStatus
      → (Text → Text → List ℕ)
      → ℕ
      → Text
      → Option Text
      → ℕ
      → Buff
      → Option (ℕ × List (Call DatStatus))
  tm_send_status csp sscanf junk fmt none nparams b = some (minus_one, [])
  tm_send_status csp sscanf junk fmt (some params) nparams b =
      let args = sscanf params fmt in
      if nparams == length args
      then (if ltb sizeof_dat_status frame_max_len
          then some (
              com_send_data csp (
                some (record {
                  node = get_or args 0 0 % 2 ^ 8;
                  nframe = 0;
                  tm_type = tm_type_status;
                  ndata = 1;
                  samples = some (dat_status_to_struct of_int to_int junk b) ∷ [];
                })))
          else none)
      else some (cmd_fail, [])
