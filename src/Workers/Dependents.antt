-- ===== src/Workers/Dependents.antt =====
-- The dependents of a transaction are in the block.
use parallel_execution.Common.{
  ℕ, ◌+◌, ◌≡◌, ◌<◌, ap, ◌∙◌, Bool, true, false, [], ◌∷◌, ◌++◌, arith, ◌==◌, count, count-append,
  inl, inr, Bool-cases, update, update_self, update_ne, ==_iff, if_intro,
}
use parallel_execution.Types.{TxVersion, Task, Bitflags, is_finished}
use parallel_execution.Scheduler.{
  Scheduler, Turn, new, abort, next_task_turn, push_dependent, add_dependency, finish_execution,
  try_validation_abort, finish_validation, prioritize_validation, prioritize_execution, try_execute,
  set_status, mark_validated, set_ready_status, resume,
}
use parallel_execution.Workers.Turns.{sched_of}
use parallel_execution.Workers.Effect.{running, Fits}
use parallel_execution.Workers.Finish.{resume-Resumed, tail, tail-Settled, drained}
use parallel_execution.Workers.Ownership.{Owned}
use parallel_execution.Workers.Preservation.{Reach-Owned}
use parallel_execution.Workers.{System, Step, Reach, turned, blocked}

-- Every dependent is in the block.
abbrev pub Inside : Scheduler → Type 0
Inside s = (b d : ℕ) → 0 < count d (s.transactions_dependents b) → d < s.block_size

-- The call leaves the lists.
abbrev Keeps : Scheduler → Scheduler → Type 0
Keeps s t = (t.block_size ≡ s.block_size) × (t.transactions_dependents ≡ s.transactions_dependents)

next_task_turn-Keeps : (s : Scheduler) (a b : ℕ) → Keeps s (sched_of (next_task_turn s a b))
unfolding next_task_turn prioritize_validation prioritize_execution try_execute set_status
next_task_turn-Keeps s a b = ground arith

try_validation_abort-Keeps : (s : Scheduler) (v : TxVersion) → Keeps s (try_validation_abort s v).0
unfolding try_validation_abort set_status
try_validation_abort-Keeps s v = ground arith

finish_validation-Keeps :
    (s : Scheduler) (v : TxVersion) (a : Bool) → Keeps s (finish_validation s v a).0
unfolding finish_validation set_ready_status try_execute set_status mark_validated
finish_validation-Keeps s v true = ground arith
finish_validation-Keeps s v false = ground arith

Keeps-Inside : (s t : Scheduler) → Keeps s t → Inside s → Inside t
Keeps-Inside s t (e, f) h b d lt = rw e (h b d (rw f at lt))

finish_execution-Inside :
    (bits : Bitflags) (s : Scheduler) (v : TxVersion) (flags : ℕ)
    → Inside s
    → Inside (finish_execution bits s v flags).0
unfolding finish_execution tail
finish_execution-Inside bits s v flags h =
    let d = resume (s.transactions_dependents v.tx_idx) (drained s v.tx_idx) in
    let r = resume-Resumed (s.transactions_dependents v.tx_idx) (drained s v.tx_idx) in
    let f = tail-Settled bits d v flags in
    Keeps-Inside (drained s v.tx_idx) (tail bits d v flags).0 (f.size ∙ r.size, f.lists ∙ r.lists)
      (λ b k lt. elim (Bool-cases (b == v.tx_idx)) [
        | inl c ↦
            let e : b ≡ v.tx_idx = (==_iff b v.tx_idx).0 c in
            absurd (
              omega (
                arith,
                lt,
                ap (λ z. count k (update s.transactions_dependents v.tx_idx [] z)) e,
                ap (count k) (update_self s.transactions_dependents v.tx_idx []),
              ))
        | inr c ↦ h b k (
            omega (
              arith,
              lt,
              ap (count k) (update_ne s.transactions_dependents v.tx_idx [] b (λ e. ground arith)),
            ))
      ])

push_dependent-Inside :
    (s : Scheduler) (i b : ℕ) → i < s.block_size → Inside s → Inside (push_dependent s i b)
unfolding push_dependent set_status
push_dependent-Inside s i b il h j k lt =
    let list = s.transactions_dependents b ++ i ∷ [] in
    elim (Bool-cases (j == b)) [
      | inl c ↦
          let e : j ≡ b = (==_iff j b).0 c in
          let there : 0 < count k (s.transactions_dependents b) + count k (i ∷ []) = omega (
            arith,
            lt,
            ap (λ z. count k (update s.transactions_dependents b list z)) e,
            ap (count k) (update_self s.transactions_dependents b list),
            count-append k (s.transactions_dependents b) (i ∷ []),
          ) in
          elim (Bool-cases (i == k)) [ inl d ↦ ground arith | inr d ↦ h b k (ground arith) ]
      | inr c ↦ h j k (
          omega (
            arith,
            lt,
            ap (count k) (update_ne s.transactions_dependents b list j (λ e. ground arith)),
          ))
    ]

module _ {E : Type 0} where
  turned-Inside :
      (y : System E) (i : ℕ) (u : Turn) → Inside (sched_of u) → Inside (turned y i u).scheduler
  turned-Inside y i (Turn.stop s) h = h
  turned-Inside y i (Turn.again s) h = h
  turned-Inside y i (Turn.hand_out s t) h = h

  Step-Inside :
      {bits : Bitflags} {threads : ℕ} {y z : System E}
      → Step bits threads y z
      → Owned threads y
      → Inside y.scheduler
      → Inside z.scheduler
  unfolding add_dependency abort
  Step-Inside {y = y} (Step.search_task i a b lt at) o h =
      turned-Inside y i (next_task_turn y.scheduler a b) (
        Keeps-Inside y.scheduler (sched_of (next_task_turn y.scheduler a b))
          (next_task_turn-Keeps y.scheduler a b) h)
  Step-Inside {y = y} (Step.block i v b lt at below) o h =
      let f : Fits {E = E} y.scheduler (running (Task.execution v)) = rw at at (o.fitting i lt) in
      if_intro (λ u. Inside (blocked y i v u).scheduler)
        (is_finished (y.scheduler.transactions_status b).status) (λ _. h)
        (λ _. push_dependent-Inside y.scheduler v.tx_idx b f.0 h)
  Step-Inside (Step.leave i v r lt at e) o h = h
  Step-Inside (Step.fail i v r lt at) o h = h
  Step-Inside (Step.report i r lt at) o h = h
  Step-Inside {bits} {y = y} (Step.complete i v flags lt at) o h =
      finish_execution-Inside bits y.scheduler v flags h
  Step-Inside (Step.accept i v lt at) o h = h
  Step-Inside {y = y} (Step.reject i v lt at) o h =
      Keeps-Inside y.scheduler (try_validation_abort y.scheduler v).0
        (try_validation_abort-Keeps y.scheduler v) h
  Step-Inside {y = y} (Step.conclude_validation i v a lt at) o h =
      Keeps-Inside y.scheduler (finish_validation y.scheduler v a).0
        (finish_validation-Keeps y.scheduler v a) h

  pub Reach-Inside :
      {bits : Bitflags} {threads block_size : ℕ} {y : System E}
      → Reach bits threads block_size y
      → Inside y.scheduler
  unfolding new
  Reach-Inside Reach.start = λ b d h. absurd (omega arith)
  Reach-Inside (Reach.later r st) = Step-Inside st (Reach-Owned r) (Reach-Inside r)
