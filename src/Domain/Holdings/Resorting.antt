-- ===== src/Domain/Holdings/Resorting.antt =====
-- A stored ledger is handed out sorted: sorting it before a transaction is added, or afterwards,
-- changes no derivation.
use portfolio_analytics_api.Common.{◌≡◌, refl, List, [], ◌∷◌, ◌++◌, All, All-append}
use portfolio_analytics_api.Common.Sort.{sort_by, sort_by_twice, sort_by-sort_by_snoc, All-sort_by}
use portfolio_analytics_api.Domain.Models.{Transaction}
use portfolio_analytics_api.Domain.Holdings.{ledger_order_le, derive_positions}
use portfolio_analytics_api.Domain.Holdings.Validation.{IsWellFormed, All-for_each}
use portfolio_analytics_api.Domain.Holdings.Positions.{ledger_order}

-- Two well-formed ledgers that sort alike give the same derivation.
pub derive_positions-eq_of_sorted :
    (xs ys : List Transaction)
    → All IsWellFormed xs
    → All IsWellFormed ys
    → sort_by ledger_order_le xs ≡ sort_by ledger_order_le ys
    → derive_positions xs ≡ derive_positions ys
unfolding derive_positions
derive_positions-eq_of_sorted xs ys wx wy e = rw (All-for_each xs wx, All-for_each ys wy, e) refl

module _ (xs : List Transaction) (w : All IsWellFormed xs) where
  IsWellFormed-sorted : All IsWellFormed (sort_by ledger_order_le xs)
  IsWellFormed-sorted = All-sort_by ledger_order_le IsWellFormed xs w

  pub derive_positions-sort_by : derive_positions (sort_by ledger_order_le xs) ≡ derive_positions xs
  derive_positions-sort_by =
      derive_positions-eq_of_sorted _ xs IsWellFormed-sorted w
        (sort_by_twice ledger_order_le ledger_order xs)

  pub derive_positions-snoc_sorted :
      (t : Transaction)
      → IsWellFormed t
      → derive_positions (sort_by ledger_order_le xs ++ t ∷ []) ≡ derive_positions (xs ++ t ∷ [])
  derive_positions-snoc_sorted t v =
      derive_positions-eq_of_sorted _ (xs ++ t ∷ [])
        (All-append IsWellFormed _ (t ∷ []) IsWellFormed-sorted (v, tt))
        (All-append IsWellFormed xs (t ∷ []) w (v, tt))
        (sort_by-sort_by_snoc ledger_order_le ledger_order xs t)
