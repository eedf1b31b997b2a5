-- ===== src/Lib.antt =====
-- The core of the balloon flight software of SUCHAI: the repositories that the tasks share, and the
-- tasks and commands that use them.
--
-- The program keeps three repositories. src/system/repoData.c holds the status variables, three
-- copies of each, the flight plan, and the indices of the payload samples; src/system/repoCommand.c
-- holds the commands, by name. Tasks look a command up, attach its parameters and send it to the
-- dispatcher; the executer calls the command's function, which reads and writes the repositories.
-- The watchdog and the housekeeping task send commands by the clock; the telemetry commands send
-- payload samples to the ground.
--
-- Which file models which part:
-- - Prelude: lists by native index, Boolean tests, C strings, `int` as a 32-bit pattern.
-- - Status: `dat_set_system_var`, `dat_get_system_var` and the variables' part of `dat_repo_init`
--   over `DAT_SYSTEM_VAR_BUFF`. Status.Faults has the step relation of writes and memory faults.
-- - FlightPlan: `dat_set_fp`, `dat_get_fp`, `dat_del_fp`, `dat_reset_fp` and `dat_show_fp` over
--   `data_base` and its mutex, in a state monad whose runs end, block for ever or fault.
-- - Sorting: `quicksort_by_name`, over any test of names.
-- - Commands: `cmd_add`, `cmd_get_str`, `cmd_get_idx`, `cmd_parse_from_str`, `cmd_add_params_str`,
--   `sort_cmd_list`, `cmd_repo_init` and the tables of commands that the `cmd_..._init` functions
--   register.
-- - Housekeeping: a second of `taskHousekeeping`, with `change_system_phase`.
-- - Watchdog: a second of `taskWatchdog`.
-- - Payload: `dat_add_payload_sample` and `dat_get_recent_payload_sample` over an interface of the
--   storage.
-- - Telemetry: `send_tel_from_to` and the `tm_...` commands of src/system/cmdTM.c.
-- - Drp: the `drp_...` commands of src/system/cmdDRP.c.
-- - Queue: the ring of src/os/Linux/pthread_queue.c, with each wait as an input, and its deadlines.
-- - Executive: `taskDispatcher` and `taskExecuter` over their three queues, as steps that run each
--   task from one blocking call to the next, in any order and with any other task sending.
-- - Comms: the server of src/system/taskCommunications.c, and in Comms.Radio the commands of
--   src/system/cmdCOM.c.
-- - Scheduler: a second of `taskFlightPlan`, and the commands of src/system/cmdFP.c.
-- - StatusReport: `dat_status_t`, `dat_status_to_struct` and `dat_print_status`, and the commands of
--   src/system/cmdTM.c that send and print it.
-- - OsTime: src/os/Linux/osSemphr.c and src/os/Linux/osDelay.c.
-- - Flash: the payload samples and, from Flash.Plan on, the flight plan of
--   src/drivers/nanomind/data_storage.c, over a record of the flash driver's operations and laws.
--   Flash.SampleStorage makes it the storage that Payload, Telemetry and Comms take as a parameter.
-- - Fram: the status variables in the FRAM of the same file, and `dat_set_system_var` and
--   `dat_get_system_var` at a storage mode above 0.
-- - Startup: `init_routines` of src/system/taskInit.c, and the choice by the first boot.
--
-- The configuration is that of src/system/include/config.h: Linux, no permanent storage, three
-- copies of each variable, communications. Two parts are not in that build and are modelled all the
-- same: the flight plan's task and commands (SCH_FP_ENABLED) and the NanoMind's memories. Signed
-- overflow wraps round, as the targets compute it.
--
-- Bounds and fuel: `quicksort_by_name` runs on the depth of its recursion, and twice the number of
-- elements is enough; the loop that fills the command array runs on the number of its turns, and the
-- number of free slots is enough; the loop over a telecommand frame's parts runs on the frame's
-- length and one more, which is enough for any frame. All other loops are recursions on the array or on the number of
-- rounds left.
--
-- Not modelled: log lines, the Linux storage, which writes SQL, the drivers of the boards, CSP and the operating system behind src/os,
-- the console, `main`, the rest of `taskInit`, and the commands of the other subsystems. `sscanf`, `vsprintf`,
-- `mktime`, `time` and CSP are parameters, but the one scan of `cmd_parse_from_str` and `strtok` are
-- written out.
pub mod Prelude
pub mod Status
pub mod FlightPlan
pub mod Sorting
pub mod Commands
pub mod Housekeeping
pub mod Watchdog
pub mod Payload
pub mod Telemetry
pub mod Drp
pub mod Queue
pub mod Executive
pub mod Comms
pub mod Scheduler
pub mod StatusReport
pub mod OsTime
pub mod Flash
pub mod Fram
pub mod Startup
