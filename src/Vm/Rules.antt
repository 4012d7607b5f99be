-- ===== src/Vm/Rules.antt =====
-- What a read leaves when it succeeds: the rules of the combinators.
use parallel_execution.Common.{◌≡◌, refl, Bool, true, false, if◌then◌else◌}
use mathlib.Core.Path.{subst}
use parallel_execution.Vm.Types.{VmDb, Read, ok, err, ◌>>=◌, Fetched, fetched, failed}
use parallel_execution.Vm.Reads.{from_fetched}

-- A successful read leaves a value and a database with the property.
abbrev pub OnOk : {A : Type 0} → (A → VmDb → Type 0) → Read A → Type 0
OnOk P (ok a db) = P a db
OnOk P (err e) = Unit {0}

pub OnOk-apply :
    {A : Type 0} (P : A → VmDb → Type 0) (r : Read A) {a : A} {db : VmDb}
    → OnOk P r
    → r ≡ ok a db
    → P a db
OnOk-apply P r h e = subst (OnOk P) e h

pub OnOk-bind :
    {A B : Type 0} (P : A → VmDb → Type 0) (Q : B → VmDb → Type 0) (r : Read A)
    (f : A → VmDb → Read B)
    → OnOk P r
    → ((a : A) (db : VmDb) → P a db → OnOk Q (f a db))
    → OnOk Q (r >>= f)
OnOk-bind P Q (ok a db) f h k = k a db h
OnOk-bind P Q (err e) f h k = tt

pub OnOk-weaken :
    {A : Type 0} (P Q : A → VmDb → Type 0) (r : Read A)
    → OnOk P r
    → ((a : A) (db : VmDb) → P a db → Q a db)
    → OnOk Q r
OnOk-weaken P Q (ok a db) h k = k a db h
OnOk-weaken P Q (err e) h k = tt

pub OnOk-always :
    {A : Type 0} (Q : A → VmDb → Type 0) (r : Read A) → ((a : A) (db : VmDb) → Q a db) → OnOk Q r
OnOk-always Q (ok a db) k = k a db
OnOk-always Q (err e) k = tt

pub OnOk-if :
    {A : Type 0} (P : A → VmDb → Type 0) (b : Bool) (r s : Read A)
    → OnOk P r
    → OnOk P s
    → OnOk P (if b then r else s)
OnOk-if P true r s h k = h
OnOk-if P false r s h k = k

-- An answer of the storage leaves the database as it was.
pub OnOk-fetched :
    {A : Type 0} (P : A → VmDb → Type 0) (f : Fetched A) (db : VmDb)
    → ((a : A) → f ≡ fetched a → P a db)
    → OnOk P (from_fetched f db)
OnOk-fetched P (fetched a) db k = k a refl
OnOk-fetched P (failed s) db k = tt
