-- ===== src/Workers/Ownership.antt =====
-- Who owns a transaction: every executing one is in one thread's hands, every aborting one is in a
-- list of dependents or about to be made ready, and no task is of a transaction outside the block.
use parallel_execution.Common.{
  ℕ, ◌+◌, ◌≡◌, ◌<◌, ◌≤◌, refl, ap, ◌∙◌, Bool, true, false, Option, none, some, arith, ◌==◌, total,
  total-change, le-total, inl, inr, Bool-cases, usize_mod, [], update, update_self, update_ne,
  ==_iff,
}
use parallel_execution.Types.{Task}
use parallel_execution.Scheduler.{Scheduler, Turn, abort}
use parallel_execution.Workers.Effect.{
  AbortReason, Pc, looking, running, finishing, reporting, exited, Effect, Fits, pc_of, pc_of_turn,
  executing_at, aborting_at, finished_at, Tallied, waits, holds, revives,
}
use parallel_execution.Workers.Turns.{sched_of}
use parallel_execution.Workers.{System, move, next_pc, turned, ends}

not_before : (a b : Bool) → (a ≡ true → b ≡ true) → b ≡ false → a ≡ false
not_before true b h e = ground (arith, h)
not_before false b h e = refl

module _ {E : Type 0} where
  abbrev pub holders : ℕ → System E → ℕ → ℕ
  holders threads y k = total (λ i. holds k (y.pc i)) threads

  abbrev pub revivers : ℕ → System E → ℕ → ℕ
  revivers threads y k = total (λ i. revives k (y.pc i)) threads

  pub record Owned (threads : ℕ) (y : System E) : Type 0 where
    pub held : (k : ℕ) → holders threads y k ≤ executing_at y.scheduler k
    pub manned :
        y.scheduler.aborted ≡ false → (k : ℕ) → executing_at y.scheduler k ≤ holders threads y k
    pub owed : (k : ℕ) → revivers threads y k + waits y.scheduler k ≡ aborting_at y.scheduler k
    pub settled :
        (k : ℕ) → finished_at y.scheduler k ≡ true → y.scheduler.transactions_dependents k ≡ []
    pub counted : y.scheduler.block_size < usize_mod → Tallied y.scheduler
    pub fitting : (i : ℕ) → i < threads → Fits y.scheduler (y.pc i)
    pub reasoned : (r : AbortReason E) → y.abort_reason ≡ some r → y.scheduler.aborted ≡ true

  -- `q'` for `q`: the task may be dropped, once the scheduler is aborted.
  pub record Drops (t : Scheduler) (q q' : Pc E) : Type 0 where
    pub less : (k : ℕ) → holds k q' ≤ holds k q
    pub full : t.aborted ≡ false → (k : ℕ) → holds k q ≤ holds k q'
    pub same : (k : ℕ) → revives k q' ≡ revives k q
    pub fits : Fits t q'

  pub Drops-none : (s t : Scheduler) (p q : Pc E) → Effect s p t q → Drops t q q
  Drops-none s t p q e = record {
    less = λ k. omega arith;
    full = λ h k. omega arith;
    same = λ k. refl;
    fits = e.fits;
  }

  change_pc :
      (w : Pc E → ℕ) (threads : ℕ) (y : System E) (i : ℕ) (q : Pc E)
      → i < threads
      → total (λ j. w (update y.pc i q j)) threads + w (y.pc i)
        ≡ total (λ j. w (y.pc j)) threads + w q
  change_pc w threads y i q lt = omega (
    arith,
    total-change (λ j. w (update y.pc i q j)) (λ j. w (y.pc j)) threads i
        (λ j ne. ap w (update_ne y.pc i q j ne)) lt,
    ap w (update_self y.pc i q),
  )

  -- What another thread has in hand still fits.
  Fits-keep :
      (s t : Scheduler) (p q : Pc E)
      → t.block_size ≡ s.block_size
      → (s.aborted ≡ true → t.aborted ≡ true)
      → ((k : ℕ)
          → holds k p ≡ 1
          → (t.transactions_status k).incarnation ≡ (s.transactions_status k).incarnation)
      → Fits s p
      → Fits t p
  Fits-keep s t (running (Task.execution v)) q e a h f =
      let x = h v.tx_idx (ground arith) in (rw e f.0, x ∙ f.1)
  Fits-keep s t (running (Task.validation v)) q e a h f = rw e f
  Fits-keep s t (finishing v b) q e a h f = rw e f
  Fits-keep s t (reporting r) q e a h f = a f
  Fits-keep s t looking q e a h f = tt
  Fits-keep s t exited q e a h f = tt

  -- A transaction that some thread executes is not aborting.
  held_running :
      (threads : ℕ) (y : System E) (j k : ℕ)
      → Owned threads y
      → j < threads
      → holds k (y.pc j) ≡ 1
      → aborting_at y.scheduler k ≡ 0
  held_running threads y j k o jt h =
      ground (arith, le-total (λ i. holds k (y.pc i)) threads j jt, o.held k)

  -- A call with a known effect keeps the account.
  pub move-Owned :
      (threads : ℕ) (y : System E) (i : ℕ) (t : Scheduler) (q q' : Pc E)
      → Owned threads y
      → i < threads
      → Effect y.scheduler (y.pc i) t q
      → Drops t q q'
      → Owned threads (move y i t q')
  move-Owned threads y i t q q' o lt e d = record {
    held = λ k. omega (arith, change_pc (holds k) threads y i q' lt, e.exec k, d.less k, o.held k);
    manned = λ h k. omega (
      arith,
      change_pc (holds k) threads y i q' lt,
      e.exec k,
      d.full h k,
      o.manned (not_before y.scheduler.aborted t.aborted e.flag h) k,
    );
    owed =
        λ k. omega (arith, change_pc (revives k) threads y i q' lt, e.wait k, d.same k, o.owed k);
    settled = λ k h. e.quiet k (o.settled k) h;
    counted = λ small.
        let small' : y.scheduler.block_size < usize_mod = rw e.size at small in
        e.count small' (o.counted small');
    fitting = λ j jt. elim (Bool-cases (j == i)) [
      | inl same ↦ rw ((==_iff j i).0 same, update_self y.pc i q') d.fits
      | inr other ↦ rw (update_ne y.pc i q' j (ground arith)) (
          Fits-keep y.scheduler t (y.pc j) q' e.size e.flag
            (λ k h. e.keep k (held_running threads y j k o jt h)) (o.fitting j jt))
    ];
    reasoned = λ r h. e.flag (o.reasoned r h);
  }

  pub unchanged : (s : Scheduler) (p : Pc E) → Fits s p → Effect s p s p
  unchanged s p f = record {
    size = refl;
    flag = λ h. h;
    exec = λ k. refl;
    wait = λ k. refl;
    keep = λ k h. refl;
    quiet = λ k h g. h g;
    count = λ small c. c;
    fits = f;
  }

  pub abort-Effect : (s : Scheduler) (p : Pc E) → Fits s p → Effect s p (abort s) p
  unfolding abort
  abort-Effect s p f = record {
    size = refl;
    flag = λ h. refl;
    exec = λ k. refl;
    wait = λ k. refl;
    keep = λ k h. refl;
    quiet = λ k h g. h g;
    count = λ small c. record { tally = c.tally; floor = c.floor };
    fits = Fits-keep s (record s { aborted = true }) p p refl (λ h. refl) (λ k h. refl) f;
  }

  pub Drops-next :
      (y : System E) (t : Scheduler) (r : Option (AbortReason E)) (o : Option Task)
      → ((x : AbortReason E) → r ≡ some x → t.aborted ≡ true)
      → Fits {E = E} t (pc_of o)
      → Drops t (pc_of o) (next_pc r o)
  Drops-next y t none o h f = record {
    less = λ k. omega arith;
    full = λ h k. omega arith;
    same = λ k. refl;
    fits = f;
  }
  Drops-next y t (some x) none h f = record {
    less = λ k. omega arith;
    full = λ g k. omega arith;
    same = λ k. refl;
    fits = tt;
  }
  Drops-next y t (some x) (some (Task.execution v)) h f = record {
    less = λ k. omega arith;
    full = λ g k. let z = h x refl in ground arith;
    same = λ k. refl;
    fits = tt;
  }
  Drops-next y t (some x) (some (Task.validation v)) h f = record {
    less = λ k. omega arith;
    full = λ g k. omega arith;
    same = λ k. refl;
    fits = tt;
  }

  pub turned-Owned :
      (threads : ℕ) (y : System E) (i : ℕ) (u : Turn)
      → Owned threads y
      → i < threads
      → Effect y.scheduler (y.pc i) (sched_of u) (pc_of_turn u)
      → Owned threads (turned y i u)
  turned-Owned threads y i (Turn.stop s) o lt e =
      move-Owned threads y i s exited exited o lt e (Drops-none y.scheduler s (y.pc i) exited e)
  turned-Owned threads y i (Turn.again s) o lt e =
      move-Owned threads y i s looking looking o lt e (Drops-none y.scheduler s (y.pc i) looking e)
  turned-Owned threads y i (Turn.hand_out s t) o lt e =
      move-Owned threads y i s (running t) (running t) o lt e
        (Drops-none y.scheduler s (y.pc i) (running t) e)

  pub ends-Owned :
      (threads : ℕ) (y : System E) (i : ℕ) (u : Scheduler × Option Task)
      → Owned threads y
      → i < threads
      → Effect y.scheduler (y.pc i) u.0 (pc_of u.1)
      → Owned threads (ends y i u)
  ends-Owned threads y i (s, t) o lt e =
      move-Owned threads y i s (pc_of t) (next_pc y.abort_reason t) o lt e
        (Drops-next y s y.abort_reason t (λ x h. e.flag (o.reasoned x h)) e.fits)
