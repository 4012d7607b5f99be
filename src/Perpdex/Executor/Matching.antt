-- ===== src/Perpdex/Executor/Matching.antt =====
-- Order matching and position arithmetic.
use parallel_execution.Common.{
  ℕ, ◌-◌, Bool, false, not, Option, none, some, ℤ, pos, ◌+ℤ◌, neg_ℤ, wrap_i128, i128_half,
  unsigned_abs, abs_i128, signum, is_zero, is_positive, eq_ℤ, ltb_ℤ, ltb, leb, if◌then◌else◌, ◌&&◌,
}
use parallel_execution.Perpdex.Types.{Side, long, short}
use parallel_execution.Perpdex.State.{PositionData, MarketData}
use parallel_execution.Perpdex.Executor.Base.{
  reduce_only_violation, Result, ok, err, price_precision, Uint,
}

-- `size.try_into().unwrap_or(i128::MAX)`
abbrev pub or_max : Option ℤ → ℤ
or_max none = pos (i128_half - 1)
or_max (some z) = z

-- `… * direction`, with `direction` 1 for `Long` and -1 for `Short`.
unfoldable pub signed_by : Side → ℤ → ℤ
unfolding neg_ℤ
signed_by long z = z
signed_by short z = wrap_i128 (neg_ℤ z)

-- "Reducing means order and position have opposite signs"
unfoldable pub is_reducing : ℤ → ℤ → Bool
is_reducing order_size_signed position_size =
    if is_zero position_size
    then false
    else if is_positive order_size_signed
    then not (is_positive position_size)
    else is_positive position_size

-- The check of `reduce_only` in both kinds of orders.
unfoldable pub may_reduce : ℤ → Option PositionData → Bool
unfolding is_reducing
may_reduce size_signed none = false
may_reduce size_signed (some p) = is_reducing size_signed p.size

module _ (u : Uint) where
  unfoldable pub size_signed : Side → ℕ → ℤ
  unfolding signed_by
  size_signed side size = signed_by side (or_max (u.try_into_i128 size))

  -- The filled size and the price.
  unfoldable pub execute_market_order :
      Side → ℕ → MarketData → Option PositionData → Bool → Result (ℕ × ℕ)
  unfolding size_signed may_reduce
  execute_market_order side size m current_position reduce_only =
      if reduce_only && not (may_reduce (size_signed side size) current_position)
      then err reduce_only_violation
      else ok (size, m.mark_price)

  abbrev pub can_fill : Side → ℕ → MarketData → Bool
  can_fill long price m = leb m.mark_price price
  can_fill short price m = leb price m.mark_price

  unfoldable pub execute_limit_order :
      Side → ℕ → ℕ → MarketData → Option PositionData → Bool → Result (ℕ × ℕ)
  unfolding size_signed may_reduce
  execute_limit_order side price size m current_position reduce_only =
      if not (can_fill side price m)
      then ok (0, 0)
      else if reduce_only && not (may_reduce (size_signed side size) current_position)
      then err reduce_only_violation
      else ok (size, price)

  unfoldable pub calculate_required_margin : ℕ → ℕ → ℕ → Result ℕ
  calculate_required_margin price size leverage =
      let notional = u.div (u.mul price size) price_precision in ok (u.div notional leverage)

  -- The entry price after adding to a position.
  unfoldable pub average_price : PositionData → ℤ → ℤ → ℕ → ℕ
  average_price p new_size size_delta fill_price =
      let old_notional = u.div (u.mul (unsigned_abs p.size) p.entry_price) price_precision in
      let new_notional = u.div (u.mul (unsigned_abs size_delta) fill_price) price_precision in
      let total_notional = u.add old_notional new_notional in
      let total_size = unsigned_abs new_size in
      if ltb 0 total_size then u.div (u.mul total_notional price_precision) total_size else 0

  unfoldable pub new_entry_price : PositionData → ℤ → ℤ → ℕ → ℕ
  unfolding average_price
  new_entry_price p new_size size_delta fill_price =
      if eq_ℤ (signum p.size) (signum size_delta)
      then average_price p new_size size_delta fill_price
      else if ltb_ℤ (abs_i128 new_size) (abs_i128 p.size)
      then p.entry_price
      else fill_price

  abbrev pub with_margin : Result ℕ → (ℕ → PositionData) → Result PositionData
  with_margin (ok m) f = ok (f m)
  with_margin (err e) f = err e

  unfoldable pub update_position : Option PositionData → Side → ℕ → ℕ → ℕ → Result PositionData
  unfolding size_signed new_entry_price calculate_required_margin
  update_position (some p) side filled_size fill_price leverage =
      let size_delta = size_signed side filled_size in
      let new_size = wrap_i128 (p.size +ℤ size_delta) in
      let entry_price = new_entry_price p new_size size_delta fill_price in
      with_margin (calculate_required_margin entry_price (unsigned_abs new_size) leverage) λ m.
        record {
          size = new_size;
          entry_price = entry_price;
          leverage = leverage;
          margin = m;
          unrealized_pnl = pos 0;
          last_funding_index = p.last_funding_index;
        }
  update_position none side filled_size fill_price leverage =
      with_margin (calculate_required_margin fill_price filled_size leverage) λ m. record {
        size = size_signed side filled_size;
        entry_price = fill_price;
        leverage = leverage;
        margin = m;
        unrealized_pnl = pos 0;
        last_funding_index = 0;
      }

  -- `-(….try_into().unwrap_or(i128::MAX))` on a loss.
  unfoldable pub calculate_unrealized_pnl : PositionData → ℕ → ℤ
  unfolding neg_ℤ
  calculate_unrealized_pnl p mark_price =
      let size_abs = unsigned_abs p.size in
      let is_long = is_positive p.size in
      let value =
        λ (diff : ℕ). or_max (u.try_into_i128 (u.div (u.mul size_abs diff) price_precision)) in
      if is_zero p.size
      then pos 0
      else let gain = value (u.sub mark_price p.entry_price) in
        let loss = value (u.sub p.entry_price mark_price) in
        if ltb p.entry_price mark_price
        then (if is_long then gain else wrap_i128 (neg_ℤ gain))
        else (if is_long then wrap_i128 (neg_ℤ loss) else loss)
