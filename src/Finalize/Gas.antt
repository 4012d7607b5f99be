-- ===== src/Finalize/Gas.antt =====
-- The gas of a block, added up over its results.
use parallel_execution.Common.{
  ℕ, zero, suc, ◌+◌, ◌≡◌, refl, ap, ◌∙◌, some, List, [], ◌∷◌, map, min, arith, length, get_elem?,
}
use parallel_execution.Finalize.Entry.{u64_max, TxResult, ok, add_gas, push_result, collect_results}

module _ {Code : Type 0} where
  -- The gas of the first `n` results.
  abbrev pub gas_of_first : ℕ → List (TxResult Code) → ℕ
  gas_of_first zero rs = 0
  gas_of_first (suc n) [] = 0
  gas_of_first (suc n) (r ∷ rs) = r.cumulative_gas_used + gas_of_first n rs

  abbrev pub with_gas : ℕ → TxResult Code → TxResult Code
  with_gas gas r = record r { cumulative_gas_used = gas }

  -- The results with the gas before them added, up to what 64 bits hold, and nothing else changed.
  abbrev AddsUp : ℕ → List (TxResult Code) → List (TxResult Code) → Type 0
  AddsUp gas rs rs' =
      (i : ℕ) (r : TxResult Code)
      → get_elem? rs i ≡ some r
      → get_elem? rs' i ≡ some (with_gas (min (gas + gas_of_first (suc i) rs) u64_max) r)

  AddsUp-cons :
      (gas : ℕ) (r : TxResult Code) (rs rs' : List (TxResult Code))
      → AddsUp (add_gas gas r.cumulative_gas_used) rs rs'
      → AddsUp gas (r ∷ rs) (with_gas (add_gas gas r.cumulative_gas_used) r ∷ rs')
  AddsUp-cons gas r rs rs' h zero s e =
      let same : r ≡ s = cc in
      let gas' = add_gas gas r.cumulative_gas_used in
      ap (λ z. some (with_gas gas' z)) same ∙ ap (λ n. some (with_gas n s)) (omega arith)
  AddsUp-cons gas r rs rs' h (suc i) s e = h i s e ∙ ap (λ n. some (with_gas n s)) (omega arith)

  collect_results_from :
      (gas : ℕ) (rs : List (TxResult Code))
      → (rs' : List (TxResult Code)) × (collect_results gas (map some rs) ≡ ok rs')
        × (length rs' ≡ length rs)
        × AddsUp gas rs rs'
  unfolding collect_results
  collect_results_from gas [] = ([], refl, refl, λ i r e. absurd cc)
  collect_results_from gas (r ∷ rs) =
      let gas' = add_gas gas r.cumulative_gas_used in
      let (rs', e, n, h) = collect_results_from gas' rs in
      let r' = with_gas gas' r in
      (r' ∷ rs', ap (push_result r') e, ap suc n, AddsUp-cons gas r rs rs' h)

  -- With a result of every transaction, the block's results are these, in their order, each
  -- with the gas of its own and all earlier transactions as its cumulative gas, or the largest
  -- number of 64 bits if that is less; nothing else of a result changes.
  pub collect_results_lem :
      (rs : List (TxResult Code))
      → (rs' : List (TxResult Code)) × (collect_results 0 (map some rs) ≡ ok rs')
        × (length rs' ≡ length rs)
        × ((i : ℕ) (r : TxResult Code)
            → get_elem? rs i ≡ some r
            → get_elem? rs' i ≡ some (with_gas (min (gas_of_first (suc i) rs) u64_max) r))
  collect_results_lem rs =
      let (rs', e, n, h) = collect_results_from 0 rs in
      (rs', e, n, λ i r at. h i r at ∙ ap (λ m. some (with_gas m r)) (omega arith))
