-- ===== src/Chains/Ethereum.antt =====
-- The forks of Ethereum (crates/pevm/src/chain/ethereum.rs).
pub mod Activation
use parallel_execution.Common.{ℕ, ◌<◌, Bool, if◌then◌else◌, leb}

-- The constants of revm's `SpecId` that the code names.
pub data SpecId : Type 0 where
  frontier homestead tangerine spurious_dragon byzantium petersburg : SpecId
  istanbul berlin london merge shanghai cancun : SpecId

-- The order of `SpecId`, of a third-party crate: a later fork is greater.
pub record SpecOrder : Type 0 where
  pub rank : SpecId → ℕ
  pub frontier_homestead : rank frontier < rank homestead
  pub homestead_tangerine : rank homestead < rank tangerine
  pub tangerine_spurious_dragon : rank tangerine < rank spurious_dragon
  pub spurious_dragon_byzantium : rank spurious_dragon < rank byzantium
  pub byzantium_petersburg : rank byzantium < rank petersburg
  pub petersburg_istanbul : rank petersburg < rank istanbul
  pub istanbul_berlin : rank istanbul < rank berlin
  pub berlin_london : rank berlin < rank london
  pub london_merge : rank london < rank merge
  pub merge_shanghai : rank merge < rank shanghai
  pub shanghai_cancun : rank shanghai < rank cancun

-- The tests of `get_block_spec`, the last one first: the fork of a block number before the test of the
-- next fork.
abbrev pub from_homestead : ℕ → SpecId
from_homestead number = if leb 1150000 number then SpecId.homestead else SpecId.frontier

abbrev pub from_tangerine : ℕ → SpecId
from_tangerine number = if leb 2463000 number then SpecId.tangerine else from_homestead number

abbrev pub from_spurious_dragon : ℕ → SpecId
from_spurious_dragon number =
    if leb 2675000 number then SpecId.spurious_dragon else from_tangerine number

abbrev pub from_byzantium : ℕ → SpecId
from_byzantium number = if leb 4370000 number then SpecId.byzantium else from_spurious_dragon number

abbrev pub from_petersburg : ℕ → SpecId
from_petersburg number = if leb 7280000 number then SpecId.petersburg else from_byzantium number

abbrev pub from_istanbul : ℕ → SpecId
from_istanbul number = if leb 9069000 number then SpecId.istanbul else from_petersburg number

abbrev pub from_berlin : ℕ → SpecId
from_berlin number = if leb 12244000 number then SpecId.berlin else from_istanbul number

abbrev pub from_london : ℕ → SpecId
from_london number = if leb 12965000 number then SpecId.london else from_berlin number

abbrev pub from_merge : ℕ → SpecId
from_merge number = if leb 15537394 number then SpecId.merge else from_london number

abbrev pub from_shanghai : ℕ → ℕ → SpecId
from_shanghai number timestamp =
    if leb 1681338455 timestamp then SpecId.shanghai else from_merge number

unfoldable pub get_block_spec : ℕ → ℕ → SpecId
get_block_spec number timestamp =
    if leb 1710338135 timestamp then SpecId.cancun else from_shanghai number timestamp

module _ (order : SpecOrder) where
  open order use {rank}

  unfoldable pub is_eip_1559_enabled : SpecId → Bool
  is_eip_1559_enabled spec_id = leb (rank SpecId.london) (rank spec_id)

  unfoldable pub is_eip_161_enabled : SpecId → Bool
  is_eip_161_enabled spec_id = leb (rank SpecId.spurious_dragon) (rank spec_id)
