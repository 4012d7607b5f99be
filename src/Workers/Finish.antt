-- ===== src/Workers/Finish.antt =====
-- The effect of `finish_execution`: the loop over the dependents, then the new status.
use parallel_execution.Common.{
  ℕ, ◌+◌, ◌≡◌, ◌≢◌, ◌<◌, ◌≤◌, refl, sym, ap, ◌∙◌, true, Option, none, some, ◌⊎◌, ltb, ltb→lt, arith,
  ◌==◌, indicator, count, total, inl, inr, Bool-cases, usize_mod, min, List, [], ◌∷◌, total-eq,
  update, ==_iff,
}
use parallel_execution.Types.{
  TxVersion, Task, IncarnationStatus, ready_to_execute, executing, executed, aborting, TxStatus,
  is_finished, Bitflags,
}
use parallel_execution.Scheduler.{
  Scheduler, resume, resume_one, conclude, note_min, finish_execution,
}
use parallel_execution.Flags.{contains-need_validation}
use parallel_execution.Workers.Tally.{Tallied-cell}
use parallel_execution.Workers.Effect.{
  running, Effect, Fits, pc_of, executing_at, aborting_at, finished_at, validated_at, Tallied,
  waits, holds, revives,
}
use parallel_execution.Workers.Calls.{waits-drain}

-- What the loop leaves: the listed transactions are ready, all else but `execution_idx` stands.
pub record Resumed (ds : List ℕ) (s t : Scheduler) : Type 0 where
  pub size : t.block_size ≡ s.block_size
  pub flag : t.aborted ≡ s.aborted
  pub lists : t.transactions_dependents ≡ s.transactions_dependents
  pub lowest : t.min_validation_idx ≡ s.min_validation_idx
  pub validations : t.num_validated ≡ s.num_validated
  pub others : (k : ℕ) → count k ds ≡ 0 → t.transactions_status k ≡ s.transactions_status k
  pub listed : (k : ℕ) → 0 < count k ds → (t.transactions_status k).status ≡ ready_to_execute

pub resume-Resumed : (ds : List ℕ) (s : Scheduler) → Resumed ds s (resume ds s)
unfolding resume
resume-Resumed [] s = record {
  size = refl;
  flag = refl;
  lists = refl;
  lowest = refl;
  validations = refl;
  others = λ k h. refl;
  listed = λ k h. elim h [ ];
}
resume-Resumed (d ∷ ds) s =
    let r = resume-Resumed ds (resume_one s d) in
    record {
      size = r.size;
      flag = r.flag;
      lists = r.lists;
      lowest = r.lowest;
      validations = r.validations;
      others = λ k h. r.others k (omega arith) ∙ ground arith;
      listed = λ k h. elim (Bool-cases (ltb 0 (count k ds))) [
        | inl e ↦ r.listed k (ltb→lt _ _ e)
        | inr e ↦ ap (λ (c : TxStatus). c.status) (r.others k (ground arith)) ∙ ground arith
      ];
    }

-- What the rest of the method leaves: the transaction is finished, the other cells stand.
pub record Settled (s : Scheduler) (v : TxVersion) (t : Scheduler) : Type 0 where
  pub size : t.block_size ≡ s.block_size
  pub flag : t.aborted ≡ s.aborted
  pub lists : t.transactions_dependents ≡ s.transactions_dependents
  pub others : (k : ℕ) → k ≢ v.tx_idx → t.transactions_status k ≡ s.transactions_status k
  pub own :
      (t.transactions_status v.tx_idx).incarnation ≡ (s.transactions_status v.tx_idx).incarnation
  pub done : (t.transactions_status v.tx_idx).status ≡ executed
  pub number : t.num_validated ≡ s.num_validated
  pub lowest : t.min_validation_idx ≡ min s.min_validation_idx v.tx_idx

module _ (bits : Bitflags) where
  -- The method after the loop.
  unfoldable pub tail : Scheduler → TxVersion → ℕ → Scheduler × Option Task
  unfolding note_min conclude
  tail s v flags = conclude bits (note_min bits s v.tx_idx flags) v flags

  pub tail-Settled : (s : Scheduler) (v : TxVersion) (flags : ℕ) → Settled s v (tail s v flags).0
  unfolding tail
  tail-Settled s v flags = record {
    size = ground arith;
    flag = ground arith;
    lists = ground arith;
    others = λ k h. ground arith;
    own = ground arith;
    done = ground (arith, contains-need_validation bits flags);
    number = ground (arith, contains-need_validation bits flags);
    lowest = ground (arith, contains-need_validation bits flags);
  }

  tail_task :
      (s : Scheduler) (v : TxVersion) (flags : ℕ)
      → ((tail s v flags).1 ≡ none) ⊎ ((tail s v flags).1 ≡ some (Task.validation v))
  unfolding tail
  tail_task s v flags = ground arith

task_pc :
    (E : Type 0) (o : Option Task) (v : TxVersion) (t : Scheduler)
    → (o ≡ none) ⊎ (o ≡ some (Task.validation v))
    → v.tx_idx < t.block_size
    → ((k : ℕ) → (holds {E = E} k (pc_of o) ≡ 0) × (revives {E = E} k (pc_of o) ≡ 0))
      × Fits {E = E} t (pc_of o)
task_pc E none v t h lt = (λ k. (refl, refl), tt)
task_pc E (some (Task.execution w)) v t h lt = ground arith
task_pc E (some (Task.validation w)) v t h lt = (λ k. (refl, refl), ground arith)

waits-eq :
    (s t : Scheduler) (k : ℕ)
    → t.block_size ≡ s.block_size
    → t.transactions_dependents ≡ s.transactions_dependents
    → waits t k ≡ waits s k
waits-eq s t k e f = rw (e, f) refl

abbrev pub drained : Scheduler → ℕ → Scheduler
drained s i = record s { transactions_dependents = update s.transactions_dependents i [] }

-- The account over the whole method, from what its two parts leave.
module _ (s d t : Scheduler) (v : TxVersion) (lt : v.tx_idx < s.block_size)
    (st : (s.transactions_status v.tx_idx).status ≡ executing)
    (once : (k : ℕ) → count k (s.transactions_dependents v.tx_idx) ≤ aborting_at s k)
    (r : Resumed (s.transactions_dependents v.tx_idx) (drained s v.tx_idx) d)
    (settled : Settled d v t) where
  not_listed : count v.tx_idx (s.transactions_dependents v.tx_idx) ≡ 0
  not_listed = ground (arith, once v.tx_idx)

  own_cell : d.transactions_status v.tx_idx ≡ s.transactions_status v.tx_idx
  own_cell = r.others v.tx_idx not_listed

  finish_size : t.block_size ≡ s.block_size
  finish_size = settled.size ∙ r.size

  -- Each cell is the transaction's own, that of a resumed transaction, or as it was.
  cell_cases :
      (k : ℕ)
      → ((v.tx_idx ≡ k)
          × (finished_at t k ≡ true)
          × ((t.transactions_status k).incarnation ≡ (s.transactions_status k).incarnation)
          × ((s.transactions_status k).status ≡ executing)
          × (count k (s.transactions_dependents v.tx_idx) ≡ 0))
        ⊎ ((v.tx_idx ≢ k)
            × ((t.transactions_status k).status ≡ ready_to_execute)
            × ((s.transactions_status k).status ≡ aborting)
            × (count k (s.transactions_dependents v.tx_idx) ≡ 1))
        ⊎ ((v.tx_idx ≢ k)
            × (t.transactions_status k ≡ s.transactions_status k)
            × (count k (s.transactions_dependents v.tx_idx) ≡ 0))
  cell_cases k = elim (Bool-cases (v.tx_idx == k)) [
    | inl e ↦
        let same : v.tx_idx ≡ k = (==_iff v.tx_idx k).0 e in
        rw (← same) (
          inl (
            refl,
            ap (λ (x : IncarnationStatus). is_finished x) settled.done,
            settled.own ∙ ap (λ (x : TxStatus). x.incarnation) own_cell,
            st,
            not_listed,
          ))
    | inr e ↦
        let other : v.tx_idx ≢ k = ground arith in
        let kept : t.transactions_status k ≡ d.transactions_status k =
          settled.others k (λ q. other (sym q)) in
        elim (Bool-cases (ltb 0 (count k (s.transactions_dependents v.tx_idx)))) [
          | inl l ↦ inr (
              inl (
                other,
                ap (λ (x : TxStatus). x.status) kept ∙ r.listed k (ltb→lt _ _ l),
                ground (arith, once k),
                ground (arith, once k),
              ))
          | inr l ↦ inr (inr (other, kept ∙ r.others k (ground arith), ground arith))
        ]
  ]

  finish_exec : (k : ℕ) → indicator (v.tx_idx == k) + executing_at t k ≡ executing_at s k
  finish_exec k = ground (arith, cell_cases k)

  finish_wait : (k : ℕ) → waits t k + aborting_at s k ≡ waits s k + aborting_at t k
  finish_wait k =
      let w = waits-eq (drained s v.tx_idx) t k finish_size (settled.lists ∙ r.lists) in
      let x = waits-drain s v.tx_idx k lt in ground (arith, cell_cases k)

  finish_keep :
      (k : ℕ)
      → aborting_at s k ≡ 0
      → (t.transactions_status k).incarnation ≡ (s.transactions_status k).incarnation
  finish_keep k h = ground (arith, cell_cases k)

  finish_quiet :
      (k : ℕ)
      → (finished_at s k ≡ true → s.transactions_dependents k ≡ [])
      → finished_at t k ≡ true
      → t.transactions_dependents k ≡ []
  finish_quiet k h f =
      let l : t.transactions_dependents k ≡ update s.transactions_dependents v.tx_idx [] k =
        ap (λ (g : ℕ → List ℕ). g k) (settled.lists ∙ r.lists) in
      ground (arith, cell_cases k, h)

  resumed_validated : (k : ℕ) → validated_at d k ≡ validated_at s k
  resumed_validated k = elim (Bool-cases (ltb 0 (count k (s.transactions_dependents v.tx_idx)))) [
    | inl e ↦ ground (arith, r.listed k (ltb→lt _ _ e), once k)
    | inr e ↦ ground (arith, r.others k (ground arith))
  ]

  resumed_finished : (k : ℕ) → finished_at d k ≡ true → finished_at s k ≡ true
  resumed_finished k f = elim (Bool-cases (ltb 0 (count k (s.transactions_dependents v.tx_idx)))) [
    | inl e ↦ ground (arith, r.listed k (ltb→lt _ _ e))
    | inr e ↦ ground (arith, r.others k (ground arith))
  ]

  resumed-Tallied : Tallied s → Tallied d
  resumed-Tallied c = record {
    tally = omega (
      arith,
      r.validations,
      c.tally,
      ap (total (validated_at d)) r.size,
      total-eq (validated_at d) (validated_at s) s.block_size (λ k l. resumed_validated k),
    );
    floor = λ k f. omega (arith, r.lowest, c.floor k (resumed_finished k f));
  }

  finish-Tallied : s.block_size < usize_mod → Tallied s → Tallied t
  finish-Tallied small c =
      Tallied-cell d t v.tx_idx settled.size (rw r.size lt) (rw r.size small) settled.others
        (inl (ground (arith, own_cell, settled.done), settled.number))
        (omega (arith, settled.lowest)) (λ f. omega (arith, settled.lowest)) (resumed-Tallied c)

  pub finish-Effect :
      (E : Type 0) (o : Option Task)
      → (o ≡ none) ⊎ (o ≡ some (Task.validation v))
      → Effect {E = E} s (running (Task.execution v)) t (pc_of o)
  finish-Effect E o h =
      let z = task_pc E o v t h (rw finish_size lt) in
      record {
        size = finish_size;
        flag = λ h. settled.flag ∙ r.flag ∙ h;
        exec = λ k. omega (arith, finish_exec k, z.0 k);
        wait = λ k. omega (arith, finish_wait k, z.0 k);
        keep = finish_keep;
        quiet = finish_quiet;
        count = finish-Tallied;
        fits = z.1;
      }

pub finish_execution-Effect :
    (E : Type 0) (bits : Bitflags) (s : Scheduler) (v : TxVersion) (flags : ℕ)
    → v.tx_idx < s.block_size
    → (s.transactions_status v.tx_idx).status ≡ executing
    → ((k : ℕ) → count k (s.transactions_dependents v.tx_idx) ≤ aborting_at s k)
    → Effect {E = E} s
        (running (Task.execution v))
        (finish_execution bits s v flags).0
        (pc_of (finish_execution bits s v flags).1)
unfolding finish_execution tail
finish_execution-Effect E bits s v flags lt st once =
    let ds = s.transactions_dependents v.tx_idx in
    let d = resume ds (drained s v.tx_idx) in
    finish-Effect s d (tail bits d v flags).0 v lt st once (resume-Resumed ds (drained s v.tx_idx))
      (tail-Settled bits d v flags) E (tail bits d v flags).1 (tail_task bits d v flags)
