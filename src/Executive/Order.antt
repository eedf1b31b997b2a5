-- ===== src/Executive/Order.antt =====
-- The order in which src/system/taskDispatcher.c and src/system/taskExecuter.c run commands.
use mathlib.Core.List.{append_assoc}
use balloon_suchai_flight_so.Prelude.{
  ℕ, suc, ◌+◌, ◌*◌, ◌≤◌, ◌<◌, ◌≡◌, refl, sym, ap, ◌∙◌, subst, List, [], ◌∷◌, ◌++◌, Option, none,
  some, arith, length, ltb, ltb→lt, Bool-cases, inl, inr, length-append,
}
use balloon_suchai_flight_so.Commands.{Cmd}
use balloon_suchai_flight_so.Executive.{
  Dispatcher, reading, sending, waiting, Executer, receiving, running, reporting, System,
  dispatcher_step, executer_step, cmd_send, check_if_executable, TaskStep, dispatches, executes,
  Reach, begin, tasks, sends, run_all, dispatcher_len,
}

-- The commands that the dispatcher holds, those that the executer holds, and all that are accepted
-- and not yet called, the oldest first.
abbrev held : Dispatcher → List Cmd
held reading = []
held (sending c) = c ∷ []
held waiting = []

abbrev pub called : Executer → List Cmd
called receiving = []
called (running c) = c ∷ []
called (reporting r) = []

-- At most one command is past the dispatcher: only while the dispatcher waits is the executer busy
-- or one of its two queues filled, and then exactly one of the three is.
abbrev Idle : List Cmd → List ℕ → Executer → Type 0
Idle cs rs receiving = length cs + length rs ≡ 0
Idle cs rs (running c) = ⊥
Idle cs rs (reporting r) = ⊥

abbrev Busy : List Cmd → List ℕ → Executer → Type 0
Busy cs rs receiving = length cs + length rs ≡ 1
Busy cs rs (running c) = length cs + length rs ≡ 0
Busy cs rs (reporting r) = length cs + length rs ≡ 0

abbrev pub Stage : Dispatcher → List Cmd → List ℕ → Executer → Type 0
Stage reading cs rs e = Idle cs rs e
Stage (sending c) cs rs e = Idle cs rs e
Stage waiting cs rs e = Busy cs rs e

-- What the tasks have still to do, in steps.
abbrev dispatcher_steps : Dispatcher → ℕ
dispatcher_steps reading = 0
dispatcher_steps (sending c) = 5
dispatcher_steps waiting = 0

abbrev executer_steps : Executer → ℕ
executer_steps receiving = 0
executer_steps (running c) = 3
executer_steps (reporting r) = 2

abbrev OnSome {ℓ κ} : {A : Type ℓ} → (A → Type κ) → Option A → Type κ
OnSome P none = Unit
OnSome P (some a) = P a

one_past :
    (d : Dispatcher) (cs : List Cmd) (rs : List ℕ) (e : Executer)
    → Stage d cs rs e
    → length (called e) + length cs + length rs ≤ 1
one_past reading cs rs receiving st = omega (arith, st)
one_past reading cs rs (running c) st = elim st [ ]
one_past reading cs rs (reporting r) st = elim st [ ]
one_past (sending c) cs rs receiving st = omega (arith, st)
one_past (sending c) cs rs (running x) st = elim st [ ]
one_past (sending c) cs rs (reporting r) st = elim st [ ]
one_past waiting cs rs receiving st = omega (arith, st)
one_past waiting cs rs (running c) st = omega (arith, st)
one_past waiting cs rs (reporting r) st = omega (arith, st)

module _ {W : Type 0} where
  abbrev pub pending : System W → List Cmd
  pending s =
      called s.executer ++ (s.executer_cmd_queue ++ (held s.dispatcher ++ s.dispatcher_queue))

  abbrev pub IsOrderly : System W → Type 0
  IsOrderly s = Stage s.dispatcher s.executer_cmd_queue s.executer_stat_queue s.executer

  abbrev pub steps_left : System W → ℕ
  steps_left s =
      6 * length s.dispatcher_queue
      + dispatcher_steps s.dispatcher
      + 4 * length s.executer_cmd_queue
      + executer_steps s.executer
      + length s.executer_stat_queue

  -- A step is in order, takes one from the steps left, and calls at most the oldest command.
  abbrev Advance : (Cmd → W → ℕ × W) → System W → System W → Type 0
  Advance function s t =
      IsOrderly t
      × (steps_left s ≡ suc (steps_left t))
      × (length t.dispatcher_queue ≤ length s.dispatcher_queue)
      × (ran : List Cmd) × (pending s ≡ ran ++ pending t)
      × (t.world ≡ run_all function ran s.world)

  abbrev pub state : List Cmd → List Cmd → List ℕ → Dispatcher → Executer → W → System W
  state dq cq rq d e w = record {
    dispatcher_queue = dq;
    executer_cmd_queue = cq;
    executer_stat_queue = rq;
    dispatcher = d;
    executer = e;
    world = w;
  }

  dispatcher-Advance :
      (function : Cmd → W → ℕ × W) (dq cq : List Cmd) (rq : List ℕ) (d : Dispatcher) (e : Executer)
      (w : W)
      → Stage d cq rq e
      → OnSome (Advance function (state dq cq rq d e w)) (dispatcher_step (state dq cq rq d e w))
  unfolding dispatcher_step check_if_executable run_all
  dispatcher-Advance function dq cq rq (sending c) (running x) w st = elim st [ ]
  dispatcher-Advance function dq cq rq (sending c) (reporting x) w st = elim st [ ]
  dispatcher-Advance function [] cq rq reading e w st = tt
  dispatcher-Advance function (c ∷ dq) cq rq reading (running x) w st = elim st [ ]
  dispatcher-Advance function (c ∷ dq) cq rq reading (reporting x) w st = elim st [ ]
  dispatcher-Advance function (c ∷ dq) [] [] reading receiving w st =
      (refl, omega arith, omega arith, [], refl, refl)
  dispatcher-Advance function (c ∷ dq) (x ∷ cq) rq reading receiving w st = absurd (omega arith)
  dispatcher-Advance function (c ∷ dq) [] (x ∷ rq) reading receiving w st = absurd (omega arith)
  dispatcher-Advance function dq [] [] (sending c) receiving w st =
      (refl, omega arith, omega arith, [], refl, refl)
  dispatcher-Advance function dq (x ∷ cq) rq (sending c) receiving w st = absurd (omega arith)
  dispatcher-Advance function dq [] (x ∷ rq) (sending c) receiving w st = absurd (omega arith)
  dispatcher-Advance function dq cq [] waiting e w st = tt
  dispatcher-Advance function dq [] (r ∷ []) waiting receiving w st =
      (refl, omega arith, omega arith, [], refl, refl)
  dispatcher-Advance function dq [] (r ∷ r' ∷ rq) waiting receiving w st = absurd (omega arith)
  dispatcher-Advance function dq (x ∷ cq) (r ∷ rq) waiting receiving w st = absurd (omega arith)
  dispatcher-Advance function dq cq (r ∷ rq) waiting (running c) w st = absurd (omega arith)
  dispatcher-Advance function dq cq (r ∷ rq) waiting (reporting x) w st = absurd (omega arith)

  executer-Advance :
      (function : Cmd → W → ℕ × W) (dq cq : List Cmd) (rq : List ℕ) (d : Dispatcher) (e : Executer)
      (w : W)
      → Stage d cq rq e
      → OnSome
          (Advance function (state dq cq rq d e w))
          (executer_step function (state dq cq rq d e w))
  unfolding executer_step run_all
  executer-Advance function dq [] rq d receiving w st = tt
  executer-Advance function dq (c ∷ cq) rq reading receiving w st = absurd (omega arith)
  executer-Advance function dq (c ∷ cq) rq (sending x) receiving w st = absurd (omega arith)
  executer-Advance function dq (c ∷ []) [] waiting receiving w st =
      (refl, omega arith, omega arith, [], refl, refl)
  executer-Advance function dq (c ∷ []) (r ∷ rq) waiting receiving w st = absurd (omega arith)
  executer-Advance function dq (c ∷ x ∷ cq) rq waiting receiving w st = absurd (omega arith)
  executer-Advance function dq cq rq reading (running c) w st = elim st [ ]
  executer-Advance function dq cq rq (sending x) (running c) w st = elim st [ ]
  executer-Advance function dq cq rq reading (reporting r) w st = elim st [ ]
  executer-Advance function dq cq rq (sending x) (reporting r) w st = elim st [ ]
  executer-Advance function dq [] [] waiting (running c) w st =
      (refl, omega arith, omega arith, c ∷ [], refl, refl)
  executer-Advance function dq (x ∷ cq) rq waiting (running c) w st = absurd (omega arith)
  executer-Advance function dq [] (x ∷ rq) waiting (running c) w st = absurd (omega arith)
  executer-Advance function dq [] [] waiting (reporting r) w st =
      (refl, omega arith, omega arith, [], refl, refl)
  executer-Advance function dq (x ∷ cq) rq waiting (reporting r) w st = absurd (omega arith)
  executer-Advance function dq [] (x ∷ rq) waiting (reporting r) w st = absurd (omega arith)

  pub TaskStep-Advance :
      (function : Cmd → W → ℕ × W) (s t : System W)
      → TaskStep function s t
      → IsOrderly s
      → Advance function s t
  TaskStep-Advance function s t (dispatches e) st = subst (OnSome (Advance function s)) e (
      dispatcher-Advance function s.dispatcher_queue s.executer_cmd_queue s.executer_stat_queue
        s.dispatcher s.executer s.world st)
  TaskStep-Advance function s t (executes e) st = subst (OnSome (Advance function s)) e (
      executer-Advance function s.dispatcher_queue s.executer_cmd_queue s.executer_stat_queue
        s.dispatcher s.executer s.world st)

  pub run_all-append :
      (function : Cmd → W → ℕ × W) (xs ys : List Cmd) (w : W)
      → run_all function (xs ++ ys) w ≡ run_all function ys (run_all function xs w)
  unfolding run_all
  run_all-append function [] ys w = refl
  run_all-append function (c ∷ xs) ys w = run_all-append function xs ys ((function c w).1)

  -- What a send does to the commands that wait.
  abbrev Sent : Cmd → System W → System W → Type 0
  Sent c s t =
      IsOrderly t
      × (pending t ≡ pending s ++ c ∷ [])
      × (t.world ≡ s.world)
      × (length t.dispatcher_queue ≤ dispatcher_len)

  cmd_send-Sent : (s : System W) (c : Cmd) → IsOrderly s → OnSome (Sent c s) (cmd_send (some c) s)
  unfolding cmd_send
  cmd_send-Sent s c st = elim (Bool-cases (ltb (length s.dispatcher_queue) dispatcher_len)) [
    | inr full ↦ rw full tt
    | inl room ↦
        let shorter : length s.dispatcher_queue < 25 = ltb→lt _ _ room in
        let longer : length (s.dispatcher_queue ++ c ∷ []) ≤ 25 =
          omega (arith, shorter, length-append s.dispatcher_queue (c ∷ [])) in
        rw room (st, simp append_assoc, refl, longer)
  ]

  -- The same for the states that are reached.
  pub Reach-Orderly :
      (function : Cmd → W → ℕ × W) (w : W) (sent : List Cmd) (s : System W)
      → Reach function w sent s
      → IsOrderly s
        × (length s.dispatcher_queue ≤ dispatcher_len)
        × (ran : List Cmd) × (ran ++ pending s ≡ sent)
        × (s.world ≡ run_all function ran w)
  unfolding run_all
  Reach-Orderly function w [] s begin = (refl, omega arith, [], refl, refl)
  Reach-Orderly function w sent t (tasks {s} r step) =
      let (st, len, ran, e, f) = Reach-Orderly function w sent s r in
      let (st', left, shorter, now, e', f') = TaskStep-Advance function s t step st in
      (
        st',
        omega (arith, len, shorter),
        ran ++ now,
        append_assoc ran now (pending t) ∙ ap (◌++◌ ran) (sym e') ∙ e,
        f' ∙ ap (run_all function now) f ∙ sym (run_all-append function ran now w),
      )
  Reach-Orderly function w _ t (sends {sent} {s} c r e) =
      let (st, len, ran, e0, f) = Reach-Orderly function w sent s r in
      let (st', e', f', len') = subst (OnSome (Sent c s)) e (cmd_send-Sent s c st) in
      (
        st',
        len',
        ran,
        ap (◌++◌ ran) e' ∙ sym (append_assoc ran (pending s) (c ∷ [])) ∙ ap (λ l. l ++ c ∷ []) e0,
        f' ∙ f,
      )

  -- Whatever the order in which the tasks run and other tasks send: the commands called so far,
  -- with those accepted and not yet called behind them, are the commands sent, in the order they
  -- were sent, each once; the world is what one thread leaves that calls the called ones in turn;
  -- at most one command is past the dispatcher; and `dispatcher_queue` is within its length.
  pub each_runs_once_in_order :
      (function : Cmd → W → ℕ × W) (w : W) (sent : List Cmd) (s : System W)
      → Reach function w sent s
      → ((ran : List Cmd) × (ran ++ pending s ≡ sent) × (s.world ≡ run_all function ran w))
        × (length (called s.executer) + length s.executer_cmd_queue + length s.executer_stat_queue
            ≤ 1)
        × (length s.dispatcher_queue ≤ dispatcher_len)
  each_runs_once_in_order function w sent s r =
      let (st, len, ran, e, f) = Reach-Orderly function w sent s r in
      (
        (ran, e, f),
        one_past s.dispatcher s.executer_cmd_queue s.executer_stat_queue s.executer st,
        len,
      )
