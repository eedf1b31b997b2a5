-- ===== src/StatusReport/Tests.antt =====
-- The theorems on the status report at concrete inputs.
use balloon_suchai_flight_so.Prelude.{ℕ, true}
use balloon_suchai_flight_so.Comms.Radio.{Csp}
use balloon_suchai_flight_so.StatusReport.Struct.{DatStatus}

abbrev same : ℕ → ℕ
same n = n

abbrev silent : Csp DatStatus
silent = record { result = λ call. 0; reply_byte = λ call. 0; buffer_get = λ n. true }
