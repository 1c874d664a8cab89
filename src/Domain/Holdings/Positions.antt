-- ===== src/Domain/Holdings/Positions.antt =====
-- What `derive_positions` returns: positive quantities in the order of their symbols, each the
-- running balance of its own trades, whatever the order in which the ledger was read.
use mathlib.Core.List.{Permᴰ}
use portfolio_analytics_api.Common.{
  ◌≡◌, refl, ◌⊎◌, inl, inr, Bool, true, false, Option, none, some, List, [], ◌∷◌, arith, All,
  Bool-cases, if◌then◌else◌, sym, ap, ◌∙◌, keep, map, ◌&&◌,
}
use portfolio_analytics_api.Common.Text.{
  Text, text_eq, text_eq→eq, text_eq_refl, text_eq_symm, text_le, text_le_refl, text_le_total,
  text_le_trans, text_le_antisymm,
}
use portfolio_analytics_api.Common.Sort.{
  insert_by, sort_by, IsOrder, IsAscending, Distinct, Apart, sort_by-IsAscending, Distinct-sort_by,
  sort_by-Permᴰ, All-sort_by, All-Permᴰ, IsAscending-keep,
}
use portfolio_analytics_api.Decimal.{Decimal, nonzero, zero_decimal}
use portfolio_analytics_api.Decimal.Sign.{IsNonNegative, IsPositive, nonzero→IsPositive}
use portfolio_analytics_api.Errors.{
  invalid_transaction, sell_exceeds_position, ok, err, >>=-eq-ok, Result-cases, for_each,
}
use portfolio_analytics_api.Domain.Models.{Transaction, Position}
use portfolio_analytics_api.Domain.Quantities.{Dict, lookup, get_or, text_eq-left}
use portfolio_analytics_api.Domain.Holdings.{
  ledger_order_le, symbol_le, to_position, replay, open_positions, derive_positions,
  validate_transaction,
}
use portfolio_analytics_api.Domain.Holdings.Validation.{IsWellFormed, for_each-All, All-for_each}
use portfolio_analytics_api.Domain.Holdings.Replay.{
  IsHoldings, Replays, replay-Replays, own_balance, replay-own_balance,
}

-- The key of the ledger order is compared as a total preorder.
pub ledger_order : IsOrder ledger_order_le
ledger_order = record { total = λ a b h. ground arith; trans = λ a b c h k. ground arith }

pub symbol_order : IsOrder (symbol_le {V = Decimal})
symbol_order = record {
  total = λ a b h. text_le_total a.0 b.0 h;
  trans = λ a b c h k. text_le_trans a.0 b.0 c.0 h k;
}

text_apart : (k j : Text) → text_eq j k ≡ false → (text_le k j && text_le j k) ≡ false
text_apart k j h = elim (Bool-cases (text_le k j && text_le j k)) [
  | inr e ↦ e
  | inl e ↦
      let same : k ≡ j = text_le_antisymm k j (ground arith) (ground arith) in
      absurd (ground (arith, text_eq_refl j, rw same at h))
]

absent-Apart :
    (k : Text) (v : Decimal) (d : Dict Decimal) → lookup k d ≡ none → All (Apart symbol_le (k, v)) d
absent-Apart k v [] h = tt
absent-Apart k v ((j, w) ∷ d) h = (text_apart k j (ground arith), absent-Apart k v d (ground arith))

IsHoldings-Distinct : (d : Dict Decimal) → IsHoldings d → Distinct symbol_le d
IsHoldings-Distinct [] h = tt
IsHoldings-Distinct ((k, v) ∷ d) h = (absent-Apart k v d h.1, IsHoldings-Distinct d h.2)

IsHoldings-values : (d : Dict Decimal) → IsHoldings d → All (λ item. IsNonNegative item.1) d
IsHoldings-values [] h = tt
IsHoldings-values ((k, v) ∷ d) h = (h.0, IsHoldings-values d h.2)

abbrev pub position_le : Position → Position → Bool
position_le a b = text_le a.symbol b.symbol

-- Open positions, in the order of their symbols and each of them once.
pub record IsPortfolio (ps : List Position) : Type 0 where
  pub ascending : IsAscending position_le ps
  pub positive : All (λ p. IsPositive p.quantity) ps

All-to_position :
    (P : Position → Type 0) (d : Dict Decimal)
    → All (λ item. P (to_position item)) d
    → All P (map to_position d)
All-to_position P [] h = tt
All-to_position P (x ∷ d) h = (h.0, All-to_position P d h.1)

IsAscending-positions :
    (d : Dict Decimal) → IsAscending symbol_le d → IsAscending position_le (map to_position d)
IsAscending-positions [] h = tt
IsAscending-positions (x ∷ d) h = (All-to_position _ d h.0, IsAscending-positions d h.1)

IsPositive-positions :
    (d : Dict Decimal)
    → All (λ item. IsNonNegative item.1) d
    → All (λ p. IsPositive p.quantity) (map to_position (keep (λ item. nonzero item.1) d))
IsPositive-positions [] h = tt
IsPositive-positions (x ∷ d) h = elim (Bool-cases (nonzero x.1)) [
  | inl e ↦ rw e (nonzero→IsPositive x.1 h.0 e, IsPositive-positions d h.1)
  | inr e ↦ rw e (IsPositive-positions d h.1)
]

open_positions-IsPortfolio : (d : Dict Decimal) → IsHoldings d → IsPortfolio (open_positions d)
unfolding open_positions
open_positions-IsPortfolio d h = record {
  ascending = IsAscending-positions _ (
      IsAscending-keep symbol_le _ _
        (sort_by-IsAscending symbol_le symbol_order d (IsHoldings-Distinct d h)));
  positive = IsPositive-positions _ (All-sort_by symbol_le _ d (IsHoldings-values d h));
}

-- The result of a derivation comes from one replay of the sorted, well-formed ledger.
pub record IsDerived (ts : List Transaction) (ps : List Position) : Type 0 where
  pub quantities : Dict Decimal
  pub well_formed : All IsWellFormed (sort_by ledger_order_le ts)
  pub replayed : replay (sort_by ledger_order_le ts) [] ≡ ok quantities
  pub result : open_positions quantities ≡ ps

pub derive_positions-IsDerived :
    (ts : List Transaction) (ps : List Position) → derive_positions ts ≡ ok ps → IsDerived ts ps
unfolding derive_positions
derive_positions-IsDerived ts ps e =
    let (_, valid, rest) = >>=-eq-ok (for_each validate_transaction ts) _ e in
    let (d, replayed, last) = >>=-eq-ok (replay (sort_by ledger_order_le ts) []) _ rest in
    record {
      quantities = d;
      well_formed = All-sort_by ledger_order_le IsWellFormed ts (for_each-All ts valid);
      replayed = replayed;
      result = ground arith;
    }

derived-IsHoldings :
    {ts : List Transaction} {ps : List Position} (h : IsDerived ts ps) → IsHoldings h.quantities
derived-IsHoldings {ts} h =
    rw (h.replayed) at (replay-Replays (sort_by ledger_order_le ts) [] h.well_formed tt)

-- When `derive_positions` returns, the positions stand in ascending order of their symbols, no
-- symbol twice, and every quantity is finite and above zero.
pub derive_positions-IsPortfolio :
    (ts : List Transaction) (ps : List Position) → derive_positions ts ≡ ok ps → IsPortfolio ps
derive_positions-IsPortfolio ts ps e =
    let h = derive_positions-IsDerived ts ps e in
    rw h.result at (open_positions-IsPortfolio h.quantities (derived-IsHoldings h))

-- The quantity of the position in `s`.
abbrev pub quantity_of : Text → List Position → Option Decimal
quantity_of s [] = none
quantity_of s (p ∷ ps) = if text_eq p.symbol s then some p.quantity else quantity_of s ps

-- A quantity that is not zero is an open position.
abbrev pub when_open : Decimal → Option Decimal
when_open x = if nonzero x then some x else none

abbrev drop_zero : Option Decimal → Option Decimal
drop_zero none = none
drop_zero (some x) = when_open x

Apart-absent :
    (s k : Text) (v : Decimal) (d : Dict Decimal)
    → All (Apart symbol_le (k, v)) d
    → text_eq k s ≡ true
    → lookup s d ≡ none
Apart-absent s k v [] h e = refl
Apart-absent s k v ((j, w) ∷ d) h e = elim (Bool-cases (text_eq j s)) [
  | inl same ↦
      let both : j ≡ k = text_eq→eq j s same ∙ sym (text_eq→eq k s e) in
      absurd (ground (arith, text_le_refl k, rw both at (h.0)))
  | inr other ↦ rw other (Apart-absent s k v d h.1 e)
]

quantity_of-keep :
    (s : Text) (d : Dict Decimal)
    → Distinct symbol_le d
    → quantity_of s (map to_position (keep (λ item. nonzero item.1) d)) ≡ drop_zero (lookup s d)
quantity_of-keep s [] h = refl
quantity_of-keep s ((k, v) ∷ d) h =
    ground (arith, quantity_of-keep s d h.1, Apart-absent s k v d h.0, text_eq→eq k s)

lookup-insert_by :
    (s k : Text) (v : Decimal) (d : Dict Decimal)
    → lookup k d ≡ none
    → lookup s (insert_by symbol_le (k, v) d) ≡ (if text_eq k s then some v else lookup s d)
lookup-insert_by s k v [] h = refl
lookup-insert_by s k v ((j, w) ∷ d) h =
    ground (arith, lookup-insert_by s k v d, text_eq-left k s j, text_eq_symm s j, text_eq_symm k j)

when_open-get_or :
    (s : Text) (d : Dict Decimal) → drop_zero (lookup s d) ≡ when_open (get_or zero_decimal s d)
unfolding nonzero
when_open-get_or s [] = refl
when_open-get_or s ((k, v) ∷ d) = ground (arith, when_open-get_or s d)

lookup-sort_by :
    (s : Text) (d : Dict Decimal) → IsHoldings d → lookup s (sort_by symbol_le d) ≡ lookup s d
unfolding sort_by
lookup-sort_by s [] h = refl
lookup-sort_by s ((k, v) ∷ d) h =
    lookup-insert_by s k v (sort_by symbol_le d) (lookup-sort_by k d h.2 ∙ h.1)
    ∙ ap (λ o. if text_eq k s then some v else o) (lookup-sort_by s d h.2)

-- When `derive_positions` returns, the position in a symbol is the running balance of the BUYs
-- and SELLs of that symbol alone, in ledger order; there is none where that balance is zero.
pub quantity_of-derive_positions :
    (s : Text) (ts : List Transaction) (ps : List Position)
    → derive_positions ts ≡ ok ps
    → quantity_of s ps ≡ when_open (own_balance s (sort_by ledger_order_le ts) zero_decimal)
unfolding open_positions
quantity_of-derive_positions s ts ps e =
    let h = derive_positions-IsDerived ts ps e in
    let valid = derived-IsHoldings h in
    let distinct = Distinct-sort_by symbol_le h.quantities (IsHoldings-Distinct _ valid) in
    let balance =
      replay-own_balance s (sort_by ledger_order_le ts) [] h.quantities h.well_formed h.replayed in
    ap (quantity_of s) (sym h.result)
    ∙ quantity_of-keep s (sort_by symbol_le h.quantities) distinct
    ∙ ap drop_zero (lookup-sort_by s h.quantities valid)
    ∙ when_open-get_or s h.quantities
    ∙ ap when_open balance

-- A well-formed ledger yields positions, or the refusal of a SELL that exceeds its position.
pub derive_positions_outcome :
    (ts : List Transaction)
    → All IsWellFormed ts
    → ((ps : List Position) × (derive_positions ts ≡ ok ps))
      ⊎ ((s : Text) × (derive_positions ts ≡ err (invalid_transaction (sell_exceeds_position s))))
unfolding derive_positions
derive_positions_outcome ts w = elim (Result-cases (replay (sort_by ledger_order_le ts) [])) [
  | inl (d, e) ↦ inl (open_positions d, rw (All-for_each ts w, e) refl)
  | inr (x, e) ↦
      let step =
        replay-Replays (sort_by ledger_order_le ts) []
          (All-sort_by ledger_order_le IsWellFormed ts w) tt in
      let (s, which) : Replays (err x) = rw e at step in
      inr (s, rw (All-for_each ts w, e, which) refl)
]

-- The order in which the rows of a ledger are read does not matter: a rearrangement of
-- well-formed transactions with distinct ledger keys gives the same outcome.
pub derive_positions_perm :
    (ts us : List Transaction)
    → Permᴰ ts us
    → All IsWellFormed ts
    → Distinct ledger_order_le ts
    → derive_positions ts ≡ derive_positions us
unfolding derive_positions
derive_positions_perm ts us p w d =
    rw
      (
        All-for_each ts w,
        All-for_each us (All-Permᴰ ledger_order_le ledger_order IsWellFormed p w),
        sort_by-Permᴰ ledger_order_le ledger_order p d,
      )
      refl
