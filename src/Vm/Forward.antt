-- ===== src/Vm/Forward.antt =====
-- A read of an account against the evaluation of its entries from the lowest up.
use parallel_execution.Common.{
  ℕ, ◌≡◌, refl, ap, sym, ◌∙◌, Option, none, some, Bool, List, ltb, ◌==◌, ◌&&◌, ◌++◌, [], ◌∷◌,
}
use parallel_execution.Types.{ReadOrigin, storage}
use parallel_execution.MvMemory.{AccountBasic, tree_at}
use parallel_execution.Vm.Types.{Vm, VmDb, TxEnv, AccountInfo, ok, fetched}
use parallel_execution.Vm.Reads.{origins_at}
use parallel_execution.Vm.Account.{
  populate, is_not, code_for, read_code_hash, finish_account, settle_with, settle, read_account,
  storage_next,
}
use parallel_execution.Vm.Descent.{
  Walk, start_walk, Walked, stopped, refused, walk, apply_additions,
}
use parallel_execution.Vm.Rules.{OnOk, OnOk-apply, OnOk-bind, OnOk-weaken, OnOk-always, OnOk-if}
use parallel_execution.Vm.Lazy.{or_base, walk_value}
use parallel_execution.Finalize.Entry.{Outcome}
use parallel_execution.Finalize.Exact.{value_at, Exact}
use parallel_execution.Finalize.History.{Evaluation, evaluate_history}
use parallel_execution.Finalize.Fold.{evaluate_history-value_at}

-- If an account is found, it has this balance and this nonce.
abbrev pub Shows : {Bytecode : Type 0} → AccountBasic → Option (AccountInfo Bytecode) → Type 0
Shows x none = Unit {0}
Shows x (some info) = (info.balance ≡ x.balance) × (info.nonce ≡ x.nonce)

module _ {Code Bytecode : Type 0} (vm : Vm Code Bytecode) (address l : ℕ) where
  finish_account-Shows :
      (db : VmDb) (x : AccountBasic) → OnOk (λ o db'. Shows x o) (finish_account vm db address l x)
  unfolding finish_account
  finish_account-Shows db x =
      OnOk-if (λ o db'. Shows x o) (l == db.from_hash && is_not db.tx.nonce x.nonce) _ _
        (OnOk-if (λ o db'. Shows x o) (ltb 0 db.tx_idx) _ _ tt tt)
        (OnOk-bind (λ h db'. Unit {0}) (λ o db'. Shows x o) (read_code_hash vm db address l) _
          (OnOk-always (λ h db'. Unit {0}) (read_code_hash vm db address l) (λ h db'. tt))
          (λ h db' _.
            OnOk-bind (λ c db''. Unit {0}) (λ o db''. Shows x o) (code_for vm h db') _
              (OnOk-always (λ c db''. Unit {0}) (code_for vm h db') (λ c db''. tt))
              (λ c db'' _. (refl, refl))))

  module _ (base : AccountBasic) (known : vm.storage.basic_of address ≡ fetched (some base)) where
    settle_with-Shows :
        (db : VmDb) (prev : List ReadOrigin) (w : Walk) (o : Option AccountBasic)
        → OnOk
            (λ r db'. Shows (apply_additions vm.uint w (or_base o base)) r)
            (settle_with vm db address l prev w o)
    settle_with-Shows db prev w (some x) =
        finish_account-Shows (populate db l prev w.new_origins) (apply_additions vm.uint w x)
    settle_with-Shows db prev w none =
        let P : Option (AccountInfo Bytecode) → VmDb → Type 0 =
          λ r db'. Shows (apply_additions vm.uint w base) r in
        let db1 = populate db l prev (w.new_origins ++ storage ∷ []) in
        OnOk-if P (storage_next prev w.new_origins) _ _
          (rw known (finish_account-Shows db1 (apply_additions vm.uint w base))) tt

    settle-Shows :
        (db : VmDb) (prev : List ReadOrigin) (v : AccountBasic) (o : Walked)
        → ((w : Walk)
            → o ≡ stopped w
            → apply_additions vm.uint w (or_base w.final_account base) ≡ v)
        → OnOk (λ r db'. Shows v r) (settle vm db address l prev o)
    settle-Shows db prev v (refused e) h = tt
    settle-Shows db prev v (stopped w) h =
        OnOk-weaken (λ r db'. Shows (apply_additions vm.uint w (or_base w.final_account base)) r)
          (λ r db'. Shows v r) (settle_with vm db address l prev w w.final_account)
          (settle_with-Shows db prev w w.final_account) (λ r db' s. rw (← h w refl) s)

    read_account-Shows :
        (db : VmDb)
        → Exact vm.uint (tree_at vm.mv_memory.data_of l) base db.tx_idx
        → OnOk
            (λ r db'. Shows (value_at vm.uint (tree_at vm.mv_memory.data_of l) base db.tx_idx) r)
            (read_account vm db address l)
    unfolding read_account
    read_account-Shows db e =
        let t = tree_at vm.mv_memory.data_of l in
        let prev = origins_at l db.read_set in
        settle-Shows db prev (value_at vm.uint t base db.tx_idx)
          (walk vm.uint t prev db.tx_idx start_walk)
          (λ w h. walk_value vm.uint t base prev db.tx_idx w h e)

    -- A read that goes down the lazy updates of an account and adds them up gives the
    -- balance and the nonce that the end of the block computes, going up the entries below
    -- the reading transaction. Both succeed and find the account, they start from the same
    -- stored account, and on the way up no update overflows, underflows or finds an
    -- estimate.
    pub read_account-evaluate_history :
        (db db' : VmDb) (info : AccountInfo Bytecode) (eip_161 : Bool) (txs : ℕ → TxEnv)
        (h : Option ℕ) (c : Option Code) (s s' : Evaluation Code)
        → Exact vm.uint (tree_at vm.mv_memory.data_of l) base db.tx_idx
        → read_account vm db address l ≡ ok (some info) db'
        → s.account ≡ base
        → evaluate_history vm.uint eip_161 txs address h c
            (tree_at vm.mv_memory.data_of l)
            db.tx_idx
            s
          ≡ Outcome.ok s'
        → (info.balance ≡ s'.account.balance) × (info.nonce ≡ s'.account.nonce)
    read_account-evaluate_history db db' info eip_161 txs h c s s' e read start eval =
        let t = tree_at vm.mv_memory.data_of l in
        let (balance, nonce) =
          OnOk-apply (λ r db'. Shows (value_at vm.uint t base db.tx_idx) r)
            (read_account vm db address l) (read_account-Shows db e) read in
        let final =
          evaluate_history-value_at vm.uint eip_161 txs address h c t db.tx_idx s s' eval in
        let same : s'.account ≡ value_at vm.uint t base db.tx_idx =
          final ∙ ap (λ z. value_at vm.uint t z db.tx_idx) start in
        (balance ∙ sym (ap (λ z. z.balance) same), nonce ∙ sym (ap (λ z. z.nonce) same))
