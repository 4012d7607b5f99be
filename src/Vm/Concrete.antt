-- ===== src/Vm/Concrete.antt =====
-- A concrete adapter for the runs of Examples: accounts 1 and 9, of which the memory updates the first
-- lazily.
use parallel_execution.Common.{
  ℕ, ◌+◌, ◌-◌, ◌*◌, ◌≡◌, refl, true, false, Option, none, some, [], min, ◌==◌, if◌then◌else◌,
}
use parallel_execution.Types.{TxVersion}
use parallel_execution.MvMemory.{MvMemory, MemoryValue, written, estimate, AccountBasic, Tree}
use parallel_execution.Vm.Types.{
  Saturating, u256_max, Vm, VmDb, TxEnv, call, MemoryLocation, EvmStorage, EvmError, ReadError,
  fetched, ethereum, Read, ok, err, AccountInfo,
}
use parallel_execution.Vm.Account.{basic}
use parallel_execution.Vm.Execute.{ResultAndState, Transacted, succeeded, failed, Shared}
use parallel_execution.Vm.Session.{Session, Any, finished, reads_account}
use parallel_execution.Vm.BlockedExecution.{Refused, account_refused}

abbrev pub uint : Saturating
uint = record {
  add = λ a b. min (a + b) u256_max;
  sub = λ a b. a - b;
  mul = λ a b. min (a * b) u256_max;
  abs_diff = λ a b. (a - b) + (b - a);
  add_lem = λ a b. refl;
  sub_lem = λ a b. refl;
  mul_lem = λ a b. refl;
  abs_diff_lem = λ a b. refl;
}

abbrev pub account_1 : AccountBasic
account_1 = record { balance = 100; nonce = 0 }

abbrev pub known : ℕ → Option AccountBasic
known a = if a == 1 then some account_1 else if a == 9 then some account_1 else none

abbrev pub storage : EvmStorage ℕ
storage = record {
  basic_of = λ a. fetched (known a);
  code_hash_of = λ a. fetched none;
  code_by_hash_of = λ h. fetched none;
  slot_of = λ a i. fetched 0;
  block_hash_of = λ n. fetched n;
}

abbrev pub hash_of : MemoryLocation → ℕ
hash_of (MemoryLocation.basic a) = 4 * a
hash_of (MemoryLocation.code_hash a) = 4 * a + 1
hash_of (MemoryLocation.storage a i) = 4 * (a * 1000 + i) + 2

-- Account 1 gets 50 in transaction 0 and spends 30 in transaction 1.
abbrev pub updates : Tree
updates i =
    if i == 0
    then some (written 0 (MemoryValue.lazy_recipient 50))
    else if i == 1
    then some (written 2 (MemoryValue.lazy_sender 30))
    else none

abbrev pub memory_with : Tree → MvMemory
memory_with t = record {
  data_of = λ l. if l == 4 then some t else none;
  last_locations = λ i. record { read = []; write = [] };
}

abbrev pub vm_with : Tree → Vm ℕ ℕ
vm_with t = record {
  uint = uint;
  storage = storage;
  mv_memory = memory_with t;
  new_bytecodes = λ h. none;
  hash_deterministic = hash_of;
  to_bytecode = λ c. some c;
  default_bytecode = 0;
  keccak_empty = 77;
  is_eip_161_enabled = true;
  is_eip_1559_enabled = true;
  basefee = 2;
  beneficiary_location_hash = 4 * 8;
  reward_policy = ethereum;
}

-- Account 9 calls account 7.
abbrev pub tx_9 : TxEnv
tx_9 = record {
  caller = 9;
  gas_limit = 21000;
  gas_price = 5;
  gas_priority_fee = some 1;
  transact_to = call 7;
  value = 3;
  nonce = some 0;
  max_fee_per_blob_gas = none;
  total_blob_gas = 0;
}

abbrev pub version_2 : TxVersion
version_2 = record { tx_idx = 2; tx_incarnation = 0 }

-- An EVM that reads account 1 and changes nothing.
abbrev pub after_read : Read (Option (AccountInfo ℕ)) → Transacted ℕ ℕ
after_read (ok info db) = succeeded (record { gas_used = 21000; state = [] }) db
after_read (err e) = failed (EvmError.database e)

abbrev pub reading : Tree → VmDb → Transacted ℕ ℕ
reading t db = after_read (basic (vm_with t) db 1)

-- What is shared when the memory is of this tree.
abbrev pub sharing : Tree → Shared ℕ
sharing t = record {
  memory = memory_with t;
  new_bytecodes = λ h. none;
  is_lazy_address = λ a. false;
}

after_read-Session :
    (Sees : Shared ℕ → Type 0) (t : Tree) (db db' : VmDb) (s : ResultAndState ℕ)
    (r : Read (Option (AccountInfo ℕ)))
    → Sees (sharing t)
    → basic (vm_with t) db 1 ≡ r
    → after_read r ≡ succeeded s db'
    → Session (vm_with t) Sees db db'
after_read-Session Sees t db db' s (ok info db1) sees q h =
    let same : db1 ≡ db' = cc in rw (← same) (reads_account (sharing t) sees 1 info q finished)
after_read-Session Sees t db db' s (err e) sees q h = absurd cc

pub reading-Session :
    (Sees : Shared ℕ → Type 0) (t : Tree) (db db' : VmDb) (s : ResultAndState ℕ)
    → Sees (sharing t)
    → reading t db ≡ succeeded s db'
    → Session (vm_with t) Sees db db'
reading-Session Sees t db db' s sees h =
    after_read-Session Sees t db db' s (basic (vm_with t) db 1) sees refl h

after_read-Refused :
    (t : Tree) (db : VmDb) (e : ReadError) (r : Read (Option (AccountInfo ℕ)))
    → basic (vm_with t) db 1 ≡ r
    → after_read r ≡ failed (EvmError.database e)
    → Refused (vm_with t) db e
after_read-Refused t db e (ok info db1) q h = absurd cc
after_read-Refused t db e (err e') q h =
    let same : e' ≡ e = cc in rw (← same) (account_refused (sharing t) 1 q)

pub reading-Refused :
    (t : Tree) (db : VmDb) (e : ReadError)
    → reading t db ≡ failed (EvmError.database e)
    → (db' : VmDb) × Session (vm_with t) Any db db' × Refused (vm_with t) db' e
reading-Refused t db e h = (db, finished, after_read-Refused t db e (basic (vm_with t) db 1) refl h)

-- Transaction 3 has written, too.
abbrev pub later_updates : Tree
later_updates i = if i == 3 then some (written 0 (MemoryValue.lazy_recipient 5)) else updates i

-- Transaction 1 has been aborted.
abbrev pub aborted : Tree
aborted i = if i == 1 then some estimate else none

-- The database of transaction 2 at its start.
abbrev pub db_2 : VmDb
db_2 = record {
  tx_idx = 2;
  tx = tx_9;
  from_hash = 36;
  to_hash = some 28;
  to_code_hash = none;
  is_lazy = false;
  read_set = [];
  read_accounts = λ l. none;
}
