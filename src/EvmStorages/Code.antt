-- ===== src/EvmStorages/Code.antt =====
-- The conversions between `EvmCode` and revm's `Bytecode` (crates/pevm/src/storage.rs).
use parallel_execution.Common.{ℕ, ◌≡◌, ◌∙◌, refl, Bool, Option, none, some, List, ◌∷◌, ◌++◌, ap}

-- `LegacyCode`
pub record LegacyCode : Type 0 where
  pub bytecode : List ℕ
  pub original_len : ℕ
  pub jump_table : List Bool

-- `Eip7702Code`; an address is the list of its bytes.
pub record Eip7702Code : Type 0 where
  pub delegated_address : List ℕ
  pub version : ℕ

-- `EvmCode`
pub data EvmCode : Type 0 where
  legacy : LegacyCode → EvmCode
  eip7702 : Eip7702Code → EvmCode
  eof : List ℕ → EvmCode

-- revm's `Eip7702Bytecode`, whose fields the code names.
pub record Eip7702Bytecode : Type 0 where
  pub delegated_address : List ℕ
  pub version : ℕ
  pub raw : List ℕ

-- What revm does with codes, as documented: an analysed code has the parts that it is made of and no
-- other, and the container of an EOF keeps the bytes that it was decoded from.
pub record Revm : Type 1 where
  pub LegacyAnalyzedBytecode : Type 0
  pub new_analyzed :
      (bytecode : List ℕ) (original_len : ℕ) (jump_table : List Bool) → LegacyAnalyzedBytecode
  pub bytecode : LegacyAnalyzedBytecode → List ℕ
  pub original_len : LegacyAnalyzedBytecode → ℕ
  pub jump_table : LegacyAnalyzedBytecode → List Bool
  pub bytecode-new_analyzed :
      (b : List ℕ) (n : ℕ) (t : List Bool) → bytecode (new_analyzed b n t) ≡ b
  pub original_len-new_analyzed :
      (b : List ℕ) (n : ℕ) (t : List Bool) → original_len (new_analyzed b n t) ≡ n
  pub jump_table-new_analyzed :
      (b : List ℕ) (n : ℕ) (t : List Bool) → jump_table (new_analyzed b n t) ≡ t
  pub new_analyzed-parts :
      (a : LegacyAnalyzedBytecode) → new_analyzed (bytecode a) (original_len a) (jump_table a) ≡ a
  pub to_analysed : List ℕ → LegacyAnalyzedBytecode
  pub Eof : Type 0
  pub decode : List ℕ → Option Eof
  pub raw : Eof → List ℕ
  pub raw-decode : (bytes : List ℕ) (e : Eof) → decode bytes ≡ some e → raw e ≡ bytes
  pub magic_bytes : List ℕ

module _ (revm : Revm) where
  -- revm's `Bytecode`
  pub data Bytecode : Type 0 where
    legacy_raw : List ℕ → Bytecode
    legacy_analyzed : revm.LegacyAnalyzedBytecode → Bytecode
    eip7702_delegated : Eip7702Bytecode → Bytecode
    eof_container : revm.Eof → Bytecode

  abbrev pub contained : Option revm.Eof → Option Bytecode
  contained none = none
  contained (some e) = some (eof_container e)

  -- `TryFrom<EvmCode> for Bytecode`; `none` is the error.
  unfoldable pub try_from : EvmCode → Option Bytecode
  try_from (EvmCode.legacy code) =
      some (legacy_analyzed (revm.new_analyzed code.bytecode code.original_len code.jump_table))
  try_from (EvmCode.eip7702 code) =
      let raw = revm.magic_bytes ++ code.version ∷ code.delegated_address in
      some (
        eip7702_delegated (record {
          delegated_address = code.delegated_address;
          version = code.version;
          raw = raw;
        }))
  try_from (EvmCode.eof code) = contained (revm.decode code)

  abbrev pub from_analyzed : revm.LegacyAnalyzedBytecode → EvmCode
  from_analyzed code = EvmCode.legacy (record {
    bytecode = revm.bytecode code;
    original_len = revm.original_len code;
    jump_table = revm.jump_table code;
  })

  -- `From<Bytecode> for EvmCode`
  unfoldable pub from : Bytecode → EvmCode
  from (legacy_raw code) = from_analyzed (revm.to_analysed code)
  from (legacy_analyzed code) = from_analyzed code
  from (eip7702_delegated code) =
      EvmCode.eip7702
        (record { delegated_address = code.delegated_address; version = code.version })
  from (eof_container e) = EvmCode.eof (revm.raw e)

  -- A container that revm has decoded.
  abbrev pub IsDecoded : Bytecode → Type 0
  IsDecoded (eof_container e) = (bytes : List ℕ) × (revm.decode bytes ≡ some e)
  IsDecoded (legacy_raw code) = Unit {0}
  IsDecoded (legacy_analyzed code) = Unit {0}
  IsDecoded (eip7702_delegated code) = Unit {0}

  -- The code, analysed, and with the bytes of a delegation as they are to be.
  abbrev pub normal : Bytecode → Bytecode
  normal (legacy_raw code) = legacy_analyzed (revm.to_analysed code)
  normal (legacy_analyzed code) = legacy_analyzed code
  normal (eip7702_delegated code) =
      eip7702_delegated
        (record code { raw = revm.magic_bytes ++ code.version ∷ code.delegated_address })
  normal (eof_container e) = eof_container e

  from-contained :
      (bytes : List ℕ) (o : Option revm.Eof) (b : Bytecode)
      → revm.decode bytes ≡ o
      → contained o ≡ some b
      → from b ≡ EvmCode.eof bytes
  unfolding from
  from-contained bytes none b q h = absurd cc
  from-contained bytes (some e) b q h =
      let same : eof_container e ≡ b = cc in
      rw (← same) (ap EvmCode.eof (revm.raw-decode bytes e q))

  from-new_analyzed :
      (code : LegacyCode)
      → from_analyzed (revm.new_analyzed code.bytecode code.original_len code.jump_table)
        ≡ EvmCode.legacy code
  from-new_analyzed code =
      let b = code.bytecode in
      let n = code.original_len in
      let t = code.jump_table in
      rw
        (
          revm.bytecode-new_analyzed b n t,
          revm.original_len-new_analyzed b n t,
          revm.jump_table-new_analyzed b n t,
        )
        refl

  from-of-try_from : (c : EvmCode) (b : Bytecode) → try_from c ≡ some b → from b ≡ c
  unfolding try_from from
  from-of-try_from (EvmCode.legacy code) b h =
      let same : legacy_analyzed (revm.new_analyzed code.bytecode code.original_len code.jump_table)
          ≡ b =
        cc in
      rw (← same) (from-new_analyzed code)
  from-of-try_from (EvmCode.eip7702 code) b h =
      let raw = revm.magic_bytes ++ code.version ∷ code.delegated_address in
      let made : Bytecode = eip7702_delegated (record {
        delegated_address = code.delegated_address;
        version = code.version;
        raw = raw;
      }) in
      let same : made ≡ b = cc in rw (← same) refl
  from-of-try_from (EvmCode.eof code) b h = from-contained code (revm.decode code) b refl h

  try_from-of-from : (b : Bytecode) → IsDecoded b → try_from (from b) ≡ some (normal b)
  unfolding try_from from
  try_from-of-from (legacy_raw code) d =
      ap (λ a. some (legacy_analyzed a)) (revm.new_analyzed-parts (revm.to_analysed code))
  try_from-of-from (legacy_analyzed code) d =
      ap (λ a. some (legacy_analyzed a)) (revm.new_analyzed-parts code)
  try_from-of-from (eip7702_delegated code) d = refl
  try_from-of-from (eof_container e) (bytes, q) =
      ap contained (ap revm.decode (revm.raw-decode bytes e q) ∙ q)

  -- A code that converts to revm's form is the same code when it is converted back, and one of
  -- revm's that is converted, and converted back, is the same but for what the conversion does
  -- on purpose: raw legacy code is analysed, and the bytes of a delegation are those of the
  -- magic number, the version and the address. An EOF container is one that revm has decoded.
  pub from-try_from :
      (c : EvmCode) (b d : Bytecode)
      → try_from c ≡ some b
      → IsDecoded d
      → (from b ≡ c) × (try_from (from d) ≡ some (normal d))
  from-try_from c b d h k = (from-of-try_from c b h, try_from-of-from d k)
