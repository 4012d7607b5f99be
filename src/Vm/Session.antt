-- ===== src/Vm/Session.antt =====
-- A transaction's reads, in the order in which the EVM makes them, and the check of what they noted.
use parallel_execution.Common.{
  ℕ, zero, suc, ◌<◌, ◌≡◌, refl, sym, ap, true, Option, update_self, arith,
}
use mathlib.Core.Path.{subst}
use parallel_execution.Types.{TxVersion}
use parallel_execution.MvMemory.{
  MvMemory, Tree, WriteSet, tree_at, next_back, record_sets, validate_read_locations,
}
use parallel_execution.MvMemory.Validation.{AllReread-below, validate_read_locations_iff}
use parallel_execution.MvMemory.Writes.{record_sets-Only}
use parallel_execution.Vm.Types.{
  Vm, VmDb, TxEnv, TxKind, call, create, MemoryLocation, Read, ok, AccountInfo,
}
use parallel_execution.Vm.Reads.{read_storage, code_by_hash, block_hash, prepare, new}
use parallel_execution.Vm.Account.{basic}
use parallel_execution.Vm.Execute.{Shared}
use parallel_execution.Vm.Rules.{OnOk, OnOk-apply, OnOk-bind}
use parallel_execution.Vm.ReadSet.{Tracked}
use parallel_execution.Vm.Tracking.{
  IsCodeEntry, CodesReady, Kept, read_storage-Tracked, get_code_hash-Tracked,
}
use parallel_execution.Vm.Accounts.{basic-Tracked, code_by_hash-Tracked, block_hash-Tracked}

-- The adapter when this is shared.
abbrev pub at : {Code Bytecode : Type 0} → Vm Code Bytecode → Shared Bytecode → Vm Code Bytecode
at vm s = record vm { mv_memory = s.memory; new_bytecodes = s.new_bytecodes }

-- Successful reads of the EVM, one after the other. Other workers may change what is shared between two
-- of them, as far as each read sees what it is said to.
pub data Session {Code Bytecode : Type 0} (vm : Vm Code Bytecode) (Sees : Shared Bytecode → Type 0)
    : VmDb → VmDb → Type 0 where
  finished : {db : VmDb} → Session vm Sees db db
  reads_account :
      {db db' db'' : VmDb} (s : Shared Bytecode)
      → Sees s
      → (address : ℕ) (r : Option (AccountInfo Bytecode)) → basic (at vm s) db address ≡ ok r db'
      → Session vm Sees db' db''
      → Session vm Sees db db''
  reads_slot :
      {db db' db'' : VmDb} (s : Shared Bytecode)
      → Sees s
      → (address index r : ℕ) → read_storage (at vm s) db address index ≡ ok r db'
      → Session vm Sees db' db''
      → Session vm Sees db db''
  reads_code :
      {db db' db'' : VmDb} (s : Shared Bytecode)
      → Sees s
      → (h : ℕ) (r : Bytecode) → code_by_hash (at vm s) db h ≡ ok r db'
      → Session vm Sees db' db''
      → Session vm Sees db db''
  reads_block_hash :
      {db db' db'' : VmDb} (s : Shared Bytecode)
      → Sees s
      → (number r : ℕ) → block_hash (at vm s) db number ≡ ok r db'
      → Session vm Sees db' db''
      → Session vm Sees db db''

-- Whatever is shared.
abbrev pub Any : {Bytecode : Type 0} → Shared Bytecode → Type 0
Any s = Unit {0}

-- The memories have the same entries of transactions below `i`.
abbrev pub SameBelow : ℕ → MvMemory → MvMemory → Type 0
SameBelow i m n = (l j : ℕ) → j < i → tree_at m.data_of l j ≡ tree_at n.data_of l j

next_back-below :
    (t u : Tree) (b : ℕ) → ((j : ℕ) → j < b → t j ≡ u j) → next_back t b ≡ next_back u b
unfolding next_back
next_back-below t u zero same = refl
next_back-below t u (suc b) same =
    rw (same b (omega arith), next_back-below t u b (λ j lt. same j (omega arith))) refl

-- As they agree, what is noted of one is true of the other.
Tracked-below :
    (m n : MvMemory) (i : ℕ) (db : VmDb) → SameBelow i m n → Tracked m i db → Tracked n i db
Tracked-below m n i db same (e, cs, hs) =
    (e, cs, AllReread-below m.data_of n.data_of i db.read_set same hs)

reversed : (m n : MvMemory) (i : ℕ) → SameBelow i m n → SameBelow i n m
reversed m n i same l j lt = sym (same l j lt)

CodesReady-below :
    {Code Bytecode : Type 0} (vm : Vm Code Bytecode) (m n : MvMemory) (i : ℕ)
    → SameBelow i m n
    → CodesReady (record vm { mv_memory = m }) i
    → CodesReady (record vm { mv_memory = n }) i
CodesReady-below vm m n i same ready address =
    let l = vm.hash_deterministic (MemoryLocation.code_hash address) in
    subst IsCodeEntry (next_back-below (tree_at m.data_of l) (tree_at n.data_of l) i (same l))
      (ready address)

module _ {Code Bytecode : Type 0} (vm : Vm Code Bytecode) (i : ℕ) (m : MvMemory)
    (ready : CodesReady (record vm { mv_memory = m }) i) where
  -- What every read may see.
  abbrev Steady : Shared Bytecode → Type 0
  Steady s = SameBelow i s.memory m

  ready_at : (s : Shared Bytecode) → Steady s → CodesReady (at vm s) i
  ready_at s same = CodesReady-below vm m s.memory i (reversed s.memory m i same) ready

  -- A read that notes what is true of the memory that it sees notes what is true of the other.
  OnOk-below :
      {A : Type 0} (s : Shared Bytecode) (db db' : VmDb) (a : A) (r : Read A)
      → Steady s
      → (Tracked s.memory i db → OnOk (Kept (at vm s) i) r)
      → r ≡ ok a db'
      → Tracked m i db
      → Tracked m i db'
  OnOk-below s db db' a r same kept e t = Tracked-below s.memory m i db' same (
      OnOk-apply (Kept (at vm s) i) r
        (kept (Tracked-below m s.memory i db (reversed s.memory m i same) t)) e)

  Session-Tracked : {db db' : VmDb} → Session vm Steady db db' → Tracked m i db → Tracked m i db'
  Session-Tracked finished t = t
  Session-Tracked (reads_account {db} {db'} s same address r e rest) t = Session-Tracked rest (
      OnOk-below s db db' r (basic (at vm s) db address) same
        (basic-Tracked (at vm s) i (ready_at s same) db address) e t)
  Session-Tracked (reads_slot {db} {db'} s same address index r e rest) t = Session-Tracked rest (
      OnOk-below s db db' r (read_storage (at vm s) db address index) same
        (read_storage-Tracked (at vm s) i db address index) e t)
  Session-Tracked (reads_code {db} {db'} s same h r e rest) t = Session-Tracked rest (
      OnOk-below s db db' r (code_by_hash (at vm s) db h) same
        (code_by_hash-Tracked (at vm s) i db h) e t)
  Session-Tracked (reads_block_hash {db} {db'} s same number r e rest) t = Session-Tracked rest (
      OnOk-below s db db' r (block_hash (at vm s) db number) same
        (block_hash-Tracked (at vm s) i db number) e t)

module _ {Code Bytecode : Type 0} (vm : Vm Code Bytecode) (i : ℕ) (ready : CodesReady vm i) where
  prepare-Tracked :
      (k : TxKind) (db : VmDb) → Tracked vm.mv_memory i db → OnOk (Kept vm i) (prepare vm k db)
  prepare-Tracked create db t = t
  prepare-Tracked (call to) db t =
      OnOk-bind (Kept vm i) (Kept vm i) _ _ (get_code_hash-Tracked vm i ready db to t)
        (λ h db' t'. t')

  new-Tracked : (tx : TxEnv) → OnOk (Kept vm i) (new vm i tx)
  unfolding new
  new-Tracked tx = prepare-Tracked tx.transact_to _ (refl, tt, tt)

recorded_validates :
    (m : MvMemory) (v : TxVersion) (db : VmDb) (ws : WriteSet)
    → Tracked m v.tx_idx db
    → validate_read_locations (record_sets m v db.read_set ws).0 v.tx_idx ≡ true
unfolding record_sets
recorded_validates m v db ws (e, cs, hs) =
    let n = (record_sets m v db.read_set ws).0 in
    let reads : db.read_set ≡ (n.last_locations v.tx_idx).read =
      ap (λ z. z.read) (sym (update_self m.last_locations v.tx_idx _)) in
    (validate_read_locations_iff n v.tx_idx (rw reads at cs)).1 (
      rw (← reads) (
        AllReread-below m.data_of n.data_of v.tx_idx db.read_set
          (λ l j lt. sym (record_sets-Only m v db.read_set ws l j (λ q. omega arith))) hs))

-- Reads that all succeed leave a read set which, recorded with any writes, passes the check, if the
-- entries of lower transactions are at each read what they are when it is recorded.
pub Session-validate_read_locations :
    {Code Bytecode : Type 0} (vm : Vm Code Bytecode) (v : TxVersion) (tx : TxEnv) (m : MvMemory)
    {start db : VmDb} (ws : WriteSet)
    → CodesReady vm v.tx_idx
    → SameBelow v.tx_idx vm.mv_memory m
    → new vm v.tx_idx tx ≡ ok tt start
    → Session vm (λ s. SameBelow v.tx_idx s.memory m) start db
    → validate_read_locations (record_sets m v db.read_set ws).0 v.tx_idx ≡ true
Session-validate_read_locations vm v tx m {start} {db} ws ready same begun s =
    let i = v.tx_idx in
    recorded_validates m v db ws (
      Session-Tracked vm i m (CodesReady-below vm vm.mv_memory m i same ready) s (
        Tracked-below vm.mv_memory m i start same
          (OnOk-apply (Kept vm i) (new vm i tx) (new-Tracked vm i ready tx) begun)))
