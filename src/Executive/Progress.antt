-- ===== src/Executive/Progress.antt =====
-- That src/system/taskDispatcher.c and src/system/taskExecuter.c run what is sent to its end.
use balloon_suchai_flight_so.Prelude.{
  ℕ, zero, suc, ◌+◌, ◌*◌, ◌≤◌, ◌≡◌, refl, sym, ap, ◌∙◌, List, [], ◌∷◌, ◌++◌, append-nil, none,
  arith, length, length-append, ◌⊎◌, inl, inr, Option-cases, append_assoc,
}
use balloon_suchai_flight_so.Commands.{Cmd}
use balloon_suchai_flight_so.Executive.{
  Dispatcher, reading, sending, waiting, Executer, receiving, running, reporting, System,
  dispatcher_step, executer_step, check_if_executable, TaskStep, dispatches, executes, Reach,
  run_all,
}
use balloon_suchai_flight_so.Executive.Order.{
  pending, IsOrderly, steps_left, state, Stage, Reach-Orderly, TaskStep-Advance, run_all-append,
}

-- The steps of the two tasks in any order, counted, with no command sent meanwhile.
pub data TaskSteps {W : Type 0} (function : Cmd → W → ℕ × W) (s : System W)
    : ℕ → System W → Type 0 where
  here : TaskSteps function s 0 s
  next :
      {n : ℕ} {t u : System W}
      → TaskSteps function s n t
      → TaskStep function t u
      → TaskSteps function s (suc n) u

module _ {W : Type 0} (function : Cmd → W → ℕ × W) where
  stuck_done :
      (dq cq : List Cmd) (rq : List ℕ) (d : Dispatcher) (e : Executer) (w : W)
      → Stage d cq rq e
      → dispatcher_step (state dq cq rq d e w) ≡ none
      → executer_step function (state dq cq rq d e w) ≡ none
      → steps_left (state dq cq rq d e w) ≡ 0
  unfolding dispatcher_step executer_step check_if_executable
  stuck_done [] [] [] reading receiving w st h k = refl
  stuck_done (c ∷ dq) cq rq reading e w st h k = cc
  stuck_done [] cq rq reading (running x) w st h k = elim st [ ]
  stuck_done [] cq rq reading (reporting x) w st h k = elim st [ ]
  stuck_done dq (x ∷ cq) rq d receiving w st h k = cc
  stuck_done [] [] (r ∷ rq) reading receiving w st h k = absurd (omega (arith, st))
  stuck_done dq [] rq (sending c) e w st h k = cc
  stuck_done dq (x ∷ cq) rq (sending c) (running y) w st h k = elim st [ ]
  stuck_done dq (x ∷ cq) rq (sending c) (reporting y) w st h k = elim st [ ]
  stuck_done dq [] [] waiting receiving w st h k = absurd (omega (arith, st))
  stuck_done dq cq (r ∷ rq) waiting e w st h k = cc
  stuck_done dq cq [] waiting (running c) w st h k = cc
  stuck_done dq cq [] waiting (reporting r) w st h k = cc

  TaskSteps-Orderly :
      (s t : System W) (n : ℕ)
      → TaskSteps function s n t
      → IsOrderly s
      → IsOrderly t
        × (n + steps_left t ≡ steps_left s)
        × (ran : List Cmd) × (pending s ≡ ran ++ pending t)
        × (t.world ≡ run_all function ran s.world)
  unfolding run_all
  TaskSteps-Orderly s t zero here st = (st, omega arith, [], refl, refl)
  TaskSteps-Orderly s u (suc n) (next {t} steps step) st =
      let (st_1, count, ran, e, f) = TaskSteps-Orderly s t n steps st in
      let (st_2, left, shorter, now, e', f') = TaskStep-Advance function t u step st_1 in
      (
        st_2,
        omega (arith, count, left),
        ran ++ now,
        e ∙ ap (◌++◌ ran) e' ∙ sym (append_assoc ran now (pending u)),
        f' ∙ ap (run_all function now) f ∙ sym (run_all-append function ran now s.world),
      )

  none_pending :
      (dq cq : List Cmd) (rq : List ℕ) (d : Dispatcher) (e : Executer) (w : W)
      → steps_left (state dq cq rq d e w) ≡ 0
      → pending (state dq cq rq d e w) ≡ []
  none_pending [] [] rq reading receiving w h = refl
  none_pending [] [] rq waiting receiving w h = refl
  none_pending [] [] rq reading (reporting r) w h = refl
  none_pending [] [] rq waiting (reporting r) w h = refl
  none_pending (c ∷ dq) cq rq d e w h = absurd (omega (arith, h))
  none_pending [] (c ∷ cq) rq d e w h = absurd (omega (arith, h))
  none_pending [] [] rq (sending c) e w h = absurd (omega (arith, h))
  none_pending [] [] rq reading (running c) w h = absurd (omega (arith, h))
  none_pending [] [] rq waiting (running c) w h = absurd (omega (arith, h))

  steps_few :
      (dq cq : List Cmd) (rq : List ℕ) (d : Dispatcher) (e : Executer) (w : W)
      → Stage d cq rq e
      → steps_left (state dq cq rq d e w) ≤ 6 * length (pending (state dq cq rq d e w)) + 2
  steps_few dq cq rq reading receiving w st = omega (arith, st, length-append cq dq)
  steps_few dq cq rq (sending c) receiving w st = omega (arith, st, length-append cq (c ∷ dq))
  steps_few dq cq rq waiting receiving w st = omega (arith, st, length-append cq dq)
  steps_few dq cq rq reading (running c) w st = elim st [ ]
  steps_few dq cq rq (sending x) (running c) w st = elim st [ ]
  steps_few dq cq rq waiting (running c) w st = omega (arith, st, length-append cq dq)
  steps_few dq cq rq reading (reporting r) w st = elim st [ ]
  steps_few dq cq rq (sending x) (reporting r) w st = elim st [ ]
  steps_few dq cq rq waiting (reporting r) w st = omega (arith, st, length-append cq dq)

  -- A task has a step, or nothing is left.
  step_or_done :
      (s : System W) → IsOrderly s → ((u : System W) × TaskStep function s u) ⊎ (steps_left s ≡ 0)
  step_or_done s st = elim (Option-cases (dispatcher_step s)) [
    | inr (u, e) ↦ inl (u, dispatches e)
    | inl h ↦ elim (Option-cases (executer_step function s)) [
      | inr (u, e) ↦ inl (u, executes e)
      | inl k ↦ inr (
          stuck_done s.dispatcher_queue s.executer_cmd_queue s.executer_stat_queue s.dispatcher
            s.executer s.world st h k)
    ]
  ]

  done_world :
      (s t : System W) (n : ℕ)
      → TaskSteps function s n t
      → IsOrderly s
      → steps_left t ≡ 0
      → t.world ≡ run_all function (pending s) s.world
  done_world s t n steps st z =
      let (st', count, ran, e, f) = TaskSteps-Orderly s t n steps st in
      let none_left =
        none_pending t.dispatcher_queue t.executer_cmd_queue t.executer_stat_queue t.dispatcher
          t.executer t.world z in
      f ∙ ap (λ l. run_all function l s.world) (sym (e ∙ ap (◌++◌ ran) none_left ∙ append-nil ran))

  -- From a state that the tasks and the senders reach, with no command sent meanwhile, in whatever order the two
  -- tasks run: they take at most six steps for each command that waits, and two more; as long as
  -- steps are left, one of the two has a step, so that there is no deadlock; and once none are left, the world is what
  -- one thread leaves that calls the commands that waited, in turn.
  pub every_schedule_finishes :
      (w : W) (sent : List Cmd) (s t : System W) (n : ℕ)
      → Reach function w sent s
      → TaskSteps function s n t
      → (n + steps_left t ≡ steps_left s)
        × (steps_left s ≤ 6 * length (pending s) + 2)
        × (((u : System W) × TaskStep function t u)
            ⊎ ((steps_left t ≡ 0) × (t.world ≡ run_all function (pending s) s.world)))
  every_schedule_finishes w sent s t n r steps =
      let st = (Reach-Orderly function w sent s r).0 in
      let (st', count, ran, e, f) = TaskSteps-Orderly s t n steps st in
      (
        count,
        steps_few s.dispatcher_queue s.executer_cmd_queue s.executer_stat_queue s.dispatcher
            s.executer s.world st,
        elim (step_or_done t st') [
          | inl step ↦ inl step
          | inr z ↦ inr (z, done_world s t n steps st z)
        ],
      )
