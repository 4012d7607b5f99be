-- ===== src/Chains/Examples.antt =====
-- The forks of two concrete blocks.
use Prim.Native.Nat.{ℕ}
use parallel_execution.Common.{◌≡◌, true, leb, arith}
use parallel_execution.Chains.Ethereum.{
  SpecId, SpecOrder, get_block_spec, is_eip_1559_enabled, is_eip_161_enabled,
}
use parallel_execution.Chains.Ethereum.Activation.{activated, get_block_spec-activated}

abbrev rank : SpecId → ℕ
rank SpecId.frontier = 0
rank SpecId.homestead = 1
rank SpecId.tangerine = 2
rank SpecId.spurious_dragon = 3
rank SpecId.byzantium = 4
rank SpecId.petersburg = 5
rank SpecId.istanbul = 6
rank SpecId.berlin = 7
rank SpecId.london = 8
rank SpecId.merge = 9
rank SpecId.shanghai = 10
rank SpecId.cancun = 11

abbrev order : SpecOrder
order = record {
  rank = rank;
  frontier_homestead = omega arith;
  homestead_tangerine = omega arith;
  tangerine_spurious_dragon = omega arith;
  spurious_dragon_byzantium = omega arith;
  byzantium_petersburg = omega arith;
  petersburg_istanbul = omega arith;
  istanbul_berlin = omega arith;
  berlin_london = omega arith;
  london_merge = omega arith;
  merge_shanghai = omega arith;
  shanghai_cancun = omega arith;
}

-- A block of London before the merge.
get_block_spec-activated_example :
    (leb 9 (rank (get_block_spec 13000000 1600000000)) ≡ activated SpecId.merge 13000000 1600000000)
    × (is_eip_1559_enabled order (get_block_spec 13000000 1600000000) ≡ true)
    × (is_eip_161_enabled order (get_block_spec 13000000 1600000000) ≡ true)
get_block_spec-activated_example = get_block_spec-activated order SpecId.merge 13000000 1600000000
