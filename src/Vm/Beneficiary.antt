-- ===== src/Vm/Beneficiary.antt =====
-- The account of the block's beneficiary, which every Ethereum transaction pays to.
use parallel_execution.Common.{
  ℕ, zero, suc, ◌-◌, ◌≡◌, ◌<◌, ◌≤◌, refl, ap, ◌∙◌, Bool, false, ◌&&◌, if◌then◌else◌, some, List,
  arith,
}
use parallel_execution.MvMemory.{Tree, tree_at, estimate}
use parallel_execution.MvMemory.Fresh.{build_mv_memory, build_mv_memory_estimate}
use parallel_execution.Vm.Types.{Vm, VmDb, ReadError, err, Saturating}
use parallel_execution.Vm.Reads.{origins_at}
use parallel_execution.Vm.Account.{settle, read_account, hash_basic, basic}
use parallel_execution.Vm.Descent.{Walk, start_walk, refused, walk}
use parallel_execution.Types.{ReadOrigin}

walk_estimate :
    (u : Saturating) (t : Tree) (prev : List ReadOrigin) (i b : ℕ) (w : Walk)
    → b ≡ suc i
    → t i ≡ some estimate
    → walk u t prev b w ≡ refused (ReadError.blocking i)
unfolding walk
walk_estimate u t prev i zero w e q = absurd (omega arith)
walk_estimate u t prev i (suc b) w e q =
    let same : i ≡ b = omega arith in
    let here : t b ≡ some estimate = rw (← same) q in rw (here, same) refl

not_lazy :
    {A : Type 0} (b c d : Bool) (x y z : A)
    → b ≡ false
    → (if b && c then x else if b && d then y else z) ≡ z
not_lazy b c d x y z e = rw e refl

-- The part of the read below the lazy branch.
read_account-build_mv_memory :
    {Code Bytecode : Type 0} (vm : Vm Code Bytecode) (db : VmDb) (address block_size : ℕ)
    → vm.mv_memory ≡ build_mv_memory vm.beneficiary_location_hash block_size
    → 0 < db.tx_idx
    → db.tx_idx ≤ block_size
    → read_account vm db address vm.beneficiary_location_hash
      ≡ err (ReadError.blocking (db.tx_idx - 1))
unfolding read_account
read_account-build_mv_memory vm db address n m lo hi =
    let l = vm.beneficiary_location_hash in
    let prev = origins_at l db.read_set in
    let there : tree_at vm.mv_memory.data_of l (db.tx_idx - 1) ≡ some estimate =
      ap (λ z. tree_at z.data_of l (db.tx_idx - 1)) m
      ∙ build_mv_memory_estimate l n (db.tx_idx - 1) (omega arith) in
    ap (settle vm db address l prev) (
      walk_estimate vm.uint (tree_at vm.mv_memory.data_of l) prev (db.tx_idx - 1) db.tx_idx
        start_walk (omega arith) there)

-- In the memory that Ethereum builds for a block, a read of the beneficiary's account by a
-- transaction that is not updated lazily is blocked on the transaction before, for every
-- transaction of the block but the first.
pub basic-build_mv_memory :
    {Code Bytecode : Type 0} (vm : Vm Code Bytecode) (db : VmDb) (address block_size : ℕ)
    → vm.mv_memory ≡ build_mv_memory vm.beneficiary_location_hash block_size
    → hash_basic vm db address ≡ vm.beneficiary_location_hash
    → db.is_lazy ≡ false
    → 0 < db.tx_idx
    → db.tx_idx ≤ block_size
    → basic vm db address ≡ err (ReadError.blocking (db.tx_idx - 1))
unfolding basic
basic-build_mv_memory vm db address n m hashed eager lo hi =
    not_lazy db.is_lazy _ _ _ _ _ eager
    ∙ ap (read_account vm db address) hashed
    ∙ read_account-build_mv_memory vm db address n m lo hi
