-- ===== src/Domain/Valuation/Dates.antt =====
-- Orders in domain/valuation.py: the market dates ascend, none twice, and the ledger is in the order
-- of its days.
use mathlib.Core.Path.{subst}
use portfolio_analytics_api.Domain.Holdings.Positions.{ledger_order}
use portfolio_analytics_api.Domain.Holdings.{ledger_order_le, validate_transaction}
use portfolio_analytics_api.Errors.{ok, >>=-eq-ok, for_each}
use portfolio_analytics_api.Common.Sort.{IsSorted, sort_by-IsSorted, sort_by}
use portfolio_analytics_api.Common.{◌≡◌, arith, inr, inl, ◌∷◌, [], true, Bool, ◌≤◌, All-imp, keep}
use portfolio_analytics_api.Domain.Models.{Transaction, instant}
use portfolio_analytics_api.Domain.Valuation.{transaction_date, ordered_transactions}
use portfolio_analytics_api.Domain.Valuation.{Prices}
use portfolio_analytics_api.Domain.Valuation.Build.{add_day, add_days, all_days, valuation_dates}
use portfolio_analytics_api.Domain.Quantities.{Dict}
use portfolio_analytics_api.Domain.Models.{Date}
use portfolio_analytics_api.Common.Sort.{Apart, Distinct, IsAscending, IsOrder, sort_by-IsAscending}
use portfolio_analytics_api.Common.{◌==◌, Bool-cases, All, leb, List, arith, inl, inr, ◌∷◌, []}

pub date_order : IsOrder leb
date_order = record { total = λ a b h. ground arith; trans = λ a b c h k. ground arith }

All-add_day {κ} :
    (P : Date → Type κ) (d : Date) (ds : List Date) → P d → All P ds → All P (add_day d ds)
All-add_day P d [] p h = (p, tt)
All-add_day P d (e ∷ ds) p h = elim (Bool-cases (e == d)) [
  | inl same ↦ rw same h
  | inr other ↦ rw other (h.0, All-add_day P d ds p h.1)
]

Distinct-add_day : (d : Date) (ds : List Date) → Distinct leb ds → Distinct leb (add_day d ds)
Distinct-add_day d [] h = (tt, tt)
Distinct-add_day d (e ∷ ds) h = elim (Bool-cases (e == d)) [
  | inl same ↦ rw same h
  | inr other ↦
      rw other (All-add_day (Apart leb e) d ds (ground arith) h.0, Distinct-add_day d ds h.1)
]

Distinct-add_days :
    (prices : Prices) (ds : List Date) → Distinct leb ds → Distinct leb (add_days prices ds)
Distinct-add_days [] ds h = h
Distinct-add_days ((d, p) ∷ prices) ds h =
    Distinct-add_days prices (add_day d ds) (Distinct-add_day d ds h)

Distinct-all_days :
    (all : Dict Prices) (ds : List Date) → Distinct leb ds → Distinct leb (all_days all ds)
Distinct-all_days [] ds h = h
Distinct-all_days ((s, prices) ∷ all) ds h =
    Distinct-all_days all (add_days prices ds) (Distinct-add_days prices ds h)

pub valuation_dates-IsAscending : (all : Dict Prices) → IsAscending leb (valuation_dates all)
unfolding valuation_dates
valuation_dates-IsAscending all =
    sort_by-IsAscending leb date_order (all_days all []) (Distinct-all_days all [] tt)

abbrev pub day_le : Transaction → Transaction → Bool
day_le a b = leb (transaction_date a) (transaction_date b)

ledger_order_le→day_le : (a b : Transaction) → ledger_order_le a b ≡ true → day_le a b ≡ true
ledger_order_le→day_le a b h =
    let earlier : instant a.occurred_at ≤ instant b.occurred_at = ground arith in
    let days : transaction_date a ≤ transaction_date b = omega arith in ground arith

IsSorted-day_le : (ts : List Transaction) → IsSorted ledger_order_le ts → IsSorted day_le ts
IsSorted-day_le [] h = tt
IsSorted-day_le (t ∷ ts) h = (All-imp _ _ (ledger_order_le→day_le t) ts h.0, IsSorted-day_le ts h.1)

-- The ordered ledger is in the order of its days.
pub ordered_transactions-IsSorted :
    (transactions : List Transaction) (end_date : Date) (ordered : List Transaction)
    → ordered_transactions transactions end_date ≡ ok ordered
    → IsSorted day_le ordered
unfolding ordered_transactions
ordered_transactions-IsSorted transactions end_date ordered h =
    let (_, valid, listed) = >>=-eq-ok (for_each validate_transaction transactions) _ h in
    let kept = keep (λ t. leb (transaction_date t) end_date) transactions in
    let same : sort_by ledger_order_le kept ≡ ordered = ground arith in
    subst (IsSorted day_le) same
      (IsSorted-day_le _ (sort_by-IsSorted ledger_order_le ledger_order kept))
