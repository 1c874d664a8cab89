-- ===== src/Memory.antt =====
-- infrastructure/memory.py: the in-memory store and its repositories, as state passing. A store
-- that was written before an exception stays written: the in-memory unit of work has no rollback.
pub mod Entries
use portfolio_analytics_api.Common.{
  ℕ, leb, ltb, ◌==◌, if◌then◌else◌, keep, any, count, find, take, drop, Bool, true, false, ◌&&◌,
  Option, none, some, List, [], ◌∷◌, ◌++◌,
}
use mathlib.Core.List.{reverse}
use portfolio_analytics_api.Common.Text.{Text, text_eq}
use portfolio_analytics_api.Common.Sort.{sort_by}
use portfolio_analytics_api.Errors.{
  email_already_registered, portfolio_already_exists, Result, ok, err,
}
use portfolio_analytics_api.Domain.Models.{
  Uuid, instant, User, Transaction, Portfolio, AnalysisSnapshot,
}
use portfolio_analytics_api.Domain.Holdings.{created_instant}

-- A dictionary keeps the order of insertion.
pub record InMemoryStore : Type 0 where
  pub users : List (Uuid × User)
  pub analysis_snapshots : List AnalysisSnapshot
  pub portfolios : List (Uuid × Portfolio)
  pub transactions : List Transaction

abbrev pub empty_store : InMemoryStore
empty_store = record { users = []; analysis_snapshots = []; portfolios = []; transactions = [] }

abbrev pub Action : Type 0 → Type 0
Action A = InMemoryStore → Result A × InMemoryStore

infixl 5 ◌>>=◌ ◌>>◌
abbrev pub ◌>>=◌ : {A B : Type 0} → Action A → (A → Action B) → Action B
◌>>=◌ m f s = let (r, s') = m s in elim r [ ok a ↦ f a s' | err e ↦ (err e, s') ]

abbrev pub ◌>>◌ : {A B : Type 0} → Action A → Action B → Action B
m >> k = m >>= λ _. k

abbrev pub pure : {A : Type 0} → A → Action A
pure a s = (ok a, s)

abbrev pub lift : {A : Type 0} → Result A → Action A
lift r s = (r, s)

abbrev pub gets : {A : Type 0} → (InMemoryStore → A) → Action A
gets f s = (ok (f s), s)

abbrev pub get_entry : {V : Type 0} → Uuid → List (Uuid × V) → Option V
get_entry k [] = none
get_entry k ((j, v) ∷ d) = if j == k then some v else get_entry k d

abbrev pub put_entry : {V : Type 0} → Uuid → V → List (Uuid × V) → List (Uuid × V)
put_entry k v [] = (k, v) ∷ []
put_entry k v ((j, w) ∷ d) = if j == k then (j, v) ∷ d else (j, w) ∷ put_entry k v d

abbrev pub has_entry : {V : Type 0} → Uuid → List (Uuid × V) → Bool
has_entry k d = elim (get_entry k d) [ none ↦ false | some _ ↦ true ]

-- `InMemoryUserRepository`
unfoldable pub users_add : User → Action (Unit {0})
users_add user s =
    if any (λ entry. text_eq entry.1.email user.email) s.users
    then (err (email_already_registered user.email), s)
    else (ok tt, record s { users = put_entry user.id user s.users })

unfoldable pub users_get : Uuid → Action (Option User)
users_get user_id s = (ok (get_entry user_id s.users), s)

abbrev pub entry_values : {V : Type 0} → List (Uuid × V) → List V
entry_values [] = []
entry_values ((_, v) ∷ d) = v ∷ entry_values d

unfoldable pub users_get_by_email : Text → Action (Option User)
users_get_by_email email s =
    (ok (find (λ user. text_eq user.email email) (entry_values s.users)), s)

-- `InMemoryAnalysisSnapshotRepository`
unfoldable pub snapshots_add : AnalysisSnapshot → Action (Unit {0})
snapshots_add snapshot s =
    (ok tt, record s { analysis_snapshots = s.analysis_snapshots ++ snapshot ∷ [] })

-- `sorted(…, reverse=True)` keeps rows of equal keys in their order.
abbrev pub newest_first : AnalysisSnapshot → AnalysisSnapshot → Bool
newest_first a b =
    let s = instant a.generated_at in
    let t = instant b.generated_at in if s == t then leb b.id a.id else ltb t s

unfoldable pub snapshots_of : Uuid → InMemoryStore → List AnalysisSnapshot
snapshots_of portfolio_id s =
    sort_by newest_first (keep (λ x. x.portfolio_id == portfolio_id) s.analysis_snapshots)

unfoldable pub snapshots_list : Uuid → ℕ → ℕ → Action (List AnalysisSnapshot)
unfolding snapshots_of
snapshots_list portfolio_id limit offset s =
    (ok (take limit (drop offset (snapshots_of portfolio_id s))), s)

unfoldable pub snapshots_count : Uuid → Action ℕ
snapshots_count portfolio_id s =
    (ok (count (λ x. x.portfolio_id == portfolio_id) s.analysis_snapshots), s)

-- `InMemoryPortfolioRepository`
unfoldable pub portfolios_add : Portfolio → Action (Unit {0})
portfolios_add portfolio s =
    if has_entry portfolio.id s.portfolios
    then (err (portfolio_already_exists portfolio.id), s)
    else (
      ok tt,
      record s {
        portfolios = put_entry portfolio.id portfolio s.portfolios;
        transactions = s.transactions ++ portfolio.transactions;
      },
    )

unfoldable pub portfolios_get : Uuid → Action (Option Portfolio)
portfolios_get portfolio_id s = (ok (get_entry portfolio_id s.portfolios), s)

unfoldable pub portfolios_get_for_update : Uuid → Action (Option Portfolio)
unfolding portfolios_get
portfolios_get_for_update = portfolios_get

unfoldable pub portfolios_of : Uuid → InMemoryStore → List Portfolio
portfolios_of owner_id s = keep (λ p. p.owner_id == owner_id) (reverse (entry_values s.portfolios))

unfoldable pub portfolios_list : Uuid → ℕ → ℕ → Action (List Portfolio)
unfolding portfolios_of
portfolios_list owner_id limit offset s =
    (ok (take limit (drop offset (portfolios_of owner_id s))), s)

unfoldable pub portfolios_count : Uuid → Action ℕ
portfolios_count owner_id s =
    (ok (count (λ p. p.owner_id == owner_id) (entry_values s.portfolios)), s)

-- `InMemoryTransactionRepository`
unfoldable pub transactions_add : Transaction → Action (Unit {0})
transactions_add t s = (ok tt, record s { transactions = s.transactions ++ t ∷ [] })

abbrev pub has_external_id : Uuid → Text → Transaction → Bool
has_external_id portfolio_id external_id t =
    t.portfolio_id == portfolio_id && text_eq t.external_id external_id

unfoldable pub transactions_get_by_external_id : Uuid → Text → Action (Option Transaction)
transactions_get_by_external_id portfolio_id external_id s =
    (ok (find (has_external_id portfolio_id external_id) s.transactions), s)

-- The key of `list_for_portfolio`: occurred, created, identifier.
abbrev pub listing_order_le : Transaction → Transaction → Bool
listing_order_le a b =
    let s = instant a.occurred_at in
    let t = instant b.occurred_at in
    let u = created_instant a.created_at a.occurred_at in
    let v = created_instant b.created_at b.occurred_at in
    if s == t then (if u == v then leb a.id b.id else ltb u v) else ltb s t

unfoldable pub ledger_of : Uuid → InMemoryStore → List Transaction
ledger_of portfolio_id s =
    sort_by listing_order_le (keep (λ t. t.portfolio_id == portfolio_id) s.transactions)

unfoldable pub transactions_list : Uuid → Action (List Transaction)
unfolding ledger_of
transactions_list portfolio_id s = (ok (ledger_of portfolio_id s), s)
