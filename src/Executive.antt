-- ===== src/Executive.antt =====
-- The dispatcher and the executer: src/system/taskDispatcher.c, src/system/taskExecuter.c, and
-- `cmd_send` of src/system/include/repoCommand.h, with the three queues that src/system/main.c
-- creates. A task is its place in its loop; a step runs it from one call that may block to the next,
-- and is `none` where that call blocks. A wait of portMAX_DELAY milliseconds, 49 days, is taken not
-- to run out. The log lines are left out.
mod Order
mod Progress
mod Tests
use balloon_suchai_flight_so.Prelude.{
  ℕ, Bool, List, [], ◌∷◌, ◌++◌, Option, none, some, ltb, if◌then◌else◌, ◌==◌, length, ◌≡◌,
}
use balloon_suchai_flight_so.Commands.{Cmd}

-- The lengths that main.c gives `osQueueCreate`.
abbrev pub dispatcher_len : ℕ
dispatcher_len = 25

abbrev pub executer_len : ℕ
executer_len = 1

-- Where `taskDispatcher` is: at `osQueueReceive(dispatcher_queue)`, at `osQueueSend` with a command
-- that is executable, or at `osQueueReceive(executer_stat_queue)`.
pub data Dispatcher : Type 0 where
  reading : Dispatcher
  sending : Cmd → Dispatcher
  waiting : Dispatcher

-- Where `taskExecuter` is: at `osQueueReceive(executer_cmd_queue)`, at the call of the command, or
-- at `osQueueSend` with its result.
pub data Executer : Type 0 where
  receiving : Executer
  running : Cmd → Executer
  reporting : ℕ → Executer

-- `world` is whatever else the command functions act on.
pub record System (W : Type 0) : Type 0 where
  pub dispatcher_queue : List Cmd
  pub executer_cmd_queue : List Cmd
  pub executer_stat_queue : List ℕ
  pub dispatcher : Dispatcher
  pub executer : Executer
  pub world : W

unfoldable pub check_if_executable : Cmd → ℕ
check_if_executable new_cmd = 1

module _ {W : Type 0} where
  abbrev pub start : W → System W
  start w = record {
    dispatcher_queue = [];
    executer_cmd_queue = [];
    executer_stat_queue = [];
    dispatcher = reading;
    executer = receiving;
    world = w;
  }

  -- `cmd_send` by any other task; a pointer that is NULL is not sent.
  unfoldable pub cmd_send : Option Cmd → System W → Option (System W)
  cmd_send none s = some s
  cmd_send (some cmd) s =
      if ltb (length s.dispatcher_queue) dispatcher_len
      then some (record s { dispatcher_queue = s.dispatcher_queue ++ cmd ∷ [] })
      else none

  unfoldable pub dispatcher_step : System W → Option (System W)
  dispatcher_step s = elim s.dispatcher [
    | reading ↦ elim s.dispatcher_queue [
      | [] ↦ none
      | new_cmd ∷ rest ↦ some (record s {
        dispatcher_queue = rest;
        dispatcher = if check_if_executable new_cmd == 0 then reading else sending new_cmd;
      })
    ]
    | sending new_cmd ↦
        if ltb (length s.executer_cmd_queue) executer_len
        then some (record s {
          executer_cmd_queue = s.executer_cmd_queue ++ new_cmd ∷ [];
          dispatcher = waiting;
        })
        else none
    | waiting ↦ elim s.executer_stat_queue [
      | [] ↦ none
      | cmd_result ∷ rest ↦ some (record s { executer_stat_queue = rest; dispatcher = reading })
    ]
  ]

  -- `function` calls the command's function with its format, its parameters and their number: the
  -- result, and what the call leaves. It is a parameter since a command is any function of the
  -- repository; it does not send a command itself.
  unfoldable pub executer_step : (Cmd → W → ℕ × W) → System W → Option (System W)
  executer_step function s = elim s.executer [
    | receiving ↦ elim s.executer_cmd_queue [
      | [] ↦ none
      | run_cmd ∷ rest ↦ some (record s { executer_cmd_queue = rest; executer = running run_cmd })
    ]
    | running run_cmd ↦
        let (cmd_stat, w) = function run_cmd s.world in
        some (record s { executer = reporting cmd_stat; world = w })
    | reporting cmd_stat ↦
        if ltb (length s.executer_stat_queue) executer_len
        then some (record s {
          executer_stat_queue = s.executer_stat_queue ++ cmd_stat ∷ [];
          executer = receiving;
        })
        else none
  ]

  -- A step of either task.
  pub data TaskStep (function : Cmd → W → ℕ × W) (s t : System W) : Type 0 where
    dispatches : dispatcher_step s ≡ some t → TaskStep function s t
    executes : executer_step function s ≡ some t → TaskStep function s t

  -- The states that the tasks and the senders reach, with the commands sent so far.
  pub data Reach (function : Cmd → W → ℕ × W) (w : W) : List Cmd → System W → Type 0 where
    begin : Reach function w [] (start w)
    tasks :
        {sent : List Cmd} {s t : System W}
        → Reach function w sent s
        → TaskStep function s t
        → Reach function w sent t
    sends :
        {sent : List Cmd} {s t : System W} (cmd : Cmd)
        → Reach function w sent s
        → cmd_send (some cmd) s ≡ some t
        → Reach function w (sent ++ cmd ∷ []) t

  -- One thread that calls each command in turn.
  unfoldable pub run_all : (Cmd → W → ℕ × W) → List Cmd → W → W
  run_all function [] w = w
  run_all function (cmd ∷ cmds) w = run_all function cmds ((function cmd w).1)
