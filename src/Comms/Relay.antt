-- ===== src/Comms/Relay.antt =====
-- What `com_send_cmd` and `com_send_tc_frame` of src/system/cmdCOM.c send.
use balloon_suchai_flight_so.Prelude.Text.{Text}
