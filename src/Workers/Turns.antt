-- ===== src/Workers/Turns.antt =====
-- The effect of a round of `next_task`.
use parallel_execution.Common.{
  ℕ, ◌≡◌, ◌<◌, refl, ◌&&◌, ltb, leb, ltb→lt, arith, inl, inr, Bool-cases, if_intro, ◌-◌, usize_succ,
}
use parallel_execution.Types.{
  Task, IncarnationStatus, ready_to_execute, executing, executed, validated, aborting, is_ready,
}
use parallel_execution.Scheduler.{
  Scheduler, Turn, set_status, version_of, try_execute, offer, prioritize_execution, validate_at,
  prioritize_validation, next_task_turn,
}
use parallel_execution.Workers.Tally.{Tallied-cell}
use parallel_execution.Workers.Effect.{Pc, looking, running, exited, Effect, pc_of_turn}

abbrev pub sched_of : Turn → Scheduler
sched_of (Turn.stop s) = s
sched_of (Turn.again s) = s
sched_of (Turn.hand_out s _) = s

-- A round, seen from a scheduler that differs from `s` in its indices only.
abbrev Round : Type 0 → Scheduler → Turn → Type 0
Round E s u = Effect {E = E} s looking (sched_of u) (pc_of_turn u)

start-Effect :
    (E : Type 0) (s : Scheduler) (i : ℕ)
    → i < s.block_size
    → (s.transactions_status i).status ≡ ready_to_execute
    → Effect {E = E} s looking
        (set_status s i executing)
        (running (Task.execution (version_of s i)))
unfolding set_status version_of
start-Effect E s i lt e = record {
  size = refl;
  flag = λ h. h;
  exec = λ k. ground arith;
  wait = λ k. ground arith;
  keep = λ k h. ground arith;
  quiet = λ k h f. ground (arith, h);
  count = λ small c.
      Tallied-cell s (set_status s i executing) i refl lt small (λ k ne. ground arith)
        (inl (ground arith, refl)) (omega arith) (λ f. ground arith) c;
  fits = ground arith;
}

module _ (E : Type 0) where
  -- The indices are no part of the account.
  from_indices :
      (s : Scheduler) (a b : ℕ) (p : Pc E) (t : Scheduler) (q : Pc E)
      → Effect (record s { execution_idx = a; validation_idx = b }) p t q
      → Effect s p t q
  from_indices s a b p t q e = record {
    size = e.size;
    flag = e.flag;
    exec = e.exec;
    wait = e.wait;
    keep = e.keep;
    quiet = e.quiet;
    count = λ small c.
        let x = e.count small (record { tally = c.tally; floor = c.floor }) in
        record { tally = x.tally; floor = x.floor };
    fits = e.fits;
  }

  same-Effect : (s : Scheduler) → Effect {E = E} s looking s looking
  same-Effect s = record {
    size = refl;
    flag = λ h. h;
    exec = λ k. refl;
    wait = λ k. refl;
    keep = λ k h. refl;
    quiet = λ k h f. h f;
    count = λ small c. c;
    fits = tt;
  }

  stop-Effect : (s : Scheduler) → Effect {E = E} s looking s exited
  stop-Effect s = record {
    size = refl;
    flag = λ h. h;
    exec = λ k. refl;
    wait = λ k. refl;
    keep = λ k h. refl;
    quiet = λ k h f. h f;
    count = λ small c. c;
    fits = tt;
  }

  validation-Effect :
      (s : Scheduler) (i : ℕ)
      → i < s.block_size
      → Effect {E = E} s looking s (running (Task.validation (version_of s i)))
  unfolding version_of
  validation-Effect s i lt = record {
    size = refl;
    flag = λ h. h;
    exec = λ k. refl;
    wait = λ k. refl;
    keep = λ k h. refl;
    quiet = λ k h f. h f;
    count = λ small c. c;
    fits = lt;
  }

  offer-Effect : (s : Scheduler) (i : ℕ) → Round E s (offer (try_execute s i))
  unfolding try_execute
  offer-Effect s i =
      elim (Bool-cases (ltb i s.block_size && is_ready (s.transactions_status i).status)) [
        | inl e ↦ rw e (start-Effect E s i (ground arith) (ground arith))
        | inr e ↦ rw e (same-Effect s)
      ]

  prioritize_execution-Effect : (s : Scheduler) → Round E s (prioritize_execution s)
  unfolding prioritize_execution
  prioritize_execution-Effect s =
      from_indices s (usize_succ s.execution_idx) s.validation_idx looking _ _
        (offer-Effect (record s { execution_idx = usize_succ s.execution_idx }) s.execution_idx)

  validate_at-Effect :
      (s : Scheduler) (i : ℕ) (st : IncarnationStatus)
      → i < s.block_size
      → (s.transactions_status i).status ≡ st
      → Round E s (validate_at s i st)
  validate_at-Effect s i ready_to_execute lt e = start-Effect E s i lt e
  validate_at-Effect s i executing lt e = prioritize_execution-Effect s
  validate_at-Effect s i executed lt e = validation-Effect s i lt
  validate_at-Effect s i validated lt e = validation-Effect s i lt
  validate_at-Effect s i aborting lt e = same-Effect s

  prioritize_validation-Effect : (s : Scheduler) → Round E s (prioritize_validation s)
  unfolding prioritize_validation
  prioritize_validation-Effect s = elim (Bool-cases (ltb s.validation_idx s.block_size)) [
    | inl e ↦ rw e (
        from_indices s s.execution_idx (usize_succ s.validation_idx) looking _ _
          (validate_at-Effect s' s.validation_idx _ (ltb→lt _ _ e) refl))
    | inr e ↦ rw e (
        from_indices s s.execution_idx (usize_succ s.validation_idx) looking _ _
          (prioritize_execution-Effect s'))
  ]
    where
      s' : Scheduler
      s' = record s { validation_idx = usize_succ s.validation_idx }

  pub next_task_turn-Effect : (s : Scheduler) (a b : ℕ) → Round E s (next_task_turn s a b)
  unfolding next_task_turn
  next_task_turn-Effect s a b =
      if_intro (Round E s) s.aborted (λ _. stop-Effect s)
        λ _.
          if_intro (Round E s) (leb s.block_size a && leb s.block_size b)
            (λ _.
              if_intro (Round E s) (leb (s.block_size - s.min_validation_idx) s.num_validated)
                (λ _. stop-Effect s) (λ _. same-Effect s))
            (λ _.
              if_intro (Round E s) (ltb b a) (λ _. prioritize_validation-Effect s)
                (λ _. prioritize_execution-Effect s))
