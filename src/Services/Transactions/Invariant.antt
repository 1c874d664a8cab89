-- ===== src/Services/Transactions/Invariant.antt =====
-- What recording one transaction does, case by case, and the invariant of the stored ledgers.
use portfolio_analytics_api.Domain.Holdings.Resorting.{
  derive_positions-snoc_sorted, derive_positions-sort_by,
}
use mathlib.Core.List.{append-nil}
use mathlib.Core.Path.{subst}
use portfolio_analytics_api.Common.Sort.{sort_by}
use portfolio_analytics_api.Domain.Holdings.Validation.{validate_transaction_iff, IsWellFormed}
use portfolio_analytics_api.Common.{
  sym, ==→eq, keep-append, refl, All-append, All-keep, ap, ◌==◌, keep, ◌∙◌, arith, All, ◌≡◌, inl,
  inr, true, false, Option, none, some, List, [], ◌∷◌, ◌++◌, find, Bool-cases, Option-cases,
}
use portfolio_analytics_api.Common.Text.{Text, text_eq_symm}
use portfolio_analytics_api.Errors.{Error, Result, ok, err, idempotency_conflict, Result-cases}
use portfolio_analytics_api.Domain.Models.{Uuid, Transaction, Position}
use portfolio_analytics_api.Domain.Holdings.{validate_transaction, derive_positions}
use portfolio_analytics_api.Memory.{
  listing_order_le, InMemoryStore, has_external_id, ledger_of, transactions_list, transactions_add,
  transactions_get_by_external_id,
}
use portfolio_analytics_api.Services.Payload.{same_transaction_payload}
use portfolio_analytics_api.Services.Transactions.{TransactionCreation, record_transaction}

-- The store with one more transaction.
abbrev pub with_transaction : InMemoryStore → Transaction → InMemoryStore
with_transaction s t = record s { transactions = s.transactions ++ t ∷ [] }

abbrev pub stored : Uuid → Text → InMemoryStore → Option Transaction
stored portfolio_id external_id s = find (has_external_id portfolio_id external_id) s.transactions

-- The five ways in which `record_transaction` ends, each with what led to it.
pub data Recording (pid : Uuid) (t : Transaction) (s : InMemoryStore)
    : Result TransactionCreation × InMemoryStore → Type 0 where
  refused : (e : Error) → validate_transaction t ≡ err e → Recording pid t s (err e, s)
  known :
      (x : Transaction)
      → validate_transaction t ≡ ok tt
      → stored pid t.external_id s ≡ some x
      → same_transaction_payload x t ≡ true
      → Recording pid t s (ok (record { transaction = x; created = false }), s)
  conflicting :
      (x : Transaction)
      → validate_transaction t ≡ ok tt
      → stored pid t.external_id s ≡ some x
      → same_transaction_payload x t ≡ false
      → Recording pid t s (err (idempotency_conflict pid t.external_id), s)
  underivable :
      (e : Error)
      → validate_transaction t ≡ ok tt
      → stored pid t.external_id s ≡ none
      → derive_positions (ledger_of pid s ++ t ∷ []) ≡ err e
      → Recording pid t s (err e, s)
  added :
      (ps : List Position)
      → validate_transaction t ≡ ok tt
      → stored pid t.external_id s ≡ none
      → derive_positions (ledger_of pid s ++ t ∷ []) ≡ ok ps
      → Recording pid t s (ok (record { transaction = t; created = true }), with_transaction s t)

pub recording :
    (pid : Uuid) (t : Transaction) (s : InMemoryStore)
    → Recording pid t s (record_transaction pid t s)
unfolding record_transaction transactions_get_by_external_id transactions_list transactions_add
recording pid t s = elim (Result-cases (validate_transaction t)) [
  | inr (e, bad) ↦ rw bad (refused e bad)
  | inl (tt, valid) ↦ elim (Option-cases (stored pid t.external_id s)) [
    | inr (x, found) ↦ elim (Bool-cases (same_transaction_payload x t)) [
      | inl same ↦ rw (valid, found, same) (known x valid found same)
      | inr other ↦ rw (valid, found, other) (conflicting x valid found other)
    ]
    | inl absent ↦ elim (Result-cases (derive_positions (ledger_of pid s ++ t ∷ []))) [
      | inr (e, bad) ↦ rw (valid, absent, bad) (underivable e valid absent bad)
      | inl (ps, fine) ↦ rw (valid, absent, fine) (added ps valid absent fine)
    ]
  ]
]

-- No two stored transactions share a portfolio and an external identifier.
abbrev pub IsUnique : List Transaction → Type 0
IsUnique [] = Unit
IsUnique (t ∷ ts) = (find (has_external_id t.portfolio_id t.external_id) ts ≡ none) × IsUnique ts

abbrev pub IsDerivable : List Transaction → Type 0
IsDerivable ts = (ps : List Position) × (derive_positions ts ≡ ok ps)

-- Every stored transaction is well formed, no external identifier is used twice in a portfolio,
-- and the ledger of every portfolio replays without a refusal.
pub record IsValidStore (s : InMemoryStore) : Type 0 where
  pub well_formed : All IsWellFormed s.transactions
  pub unique : IsUnique s.transactions
  pub derivable : (pid : Uuid) → IsDerivable (ledger_of pid s)

find-snoc_none :
    (pid : Uuid) (x : Text) (ts : List Transaction) (t : Transaction)
    → find (has_external_id pid x) ts ≡ none
    → has_external_id pid x t ≡ false
    → find (has_external_id pid x) (ts ++ t ∷ []) ≡ none
find-snoc_none pid x [] t h k = ground arith
find-snoc_none pid x (u ∷ ts) t h k = ground (arith, find-snoc_none pid x ts t)

has_external_id_symm :
    (t u : Transaction)
    → has_external_id t.portfolio_id t.external_id u
      ≡ has_external_id u.portfolio_id u.external_id t
has_external_id_symm t u = ground (arith, text_eq_symm t.external_id u.external_id)

find-none_head :
    (pid : Uuid) (x : Text) (u : Transaction) (ts : List Transaction)
    → find (has_external_id pid x) (u ∷ ts) ≡ none
    → (has_external_id pid x u ≡ false) × (find (has_external_id pid x) ts ≡ none)
find-none_head pid x u ts h = elim (Bool-cases (has_external_id pid x u)) [
  | inl e ↦ absurd (cc (rw e at h))
  | inr e ↦ (e, rw e at h)
]

IsUnique-snoc :
    (ts : List Transaction) (t : Transaction)
    → IsUnique ts
    → find (has_external_id t.portfolio_id t.external_id) ts ≡ none
    → IsUnique (ts ++ t ∷ [])
IsUnique-snoc [] t h k = (refl, tt)
IsUnique-snoc (u ∷ ts) t h k =
    let (apart, rest) = find-none_head t.portfolio_id t.external_id u ts k in
    (
      find-snoc_none u.portfolio_id u.external_id ts t h.0 (has_external_id_symm u t ∙ apart),
      IsUnique-snoc ts t h.1 rest,
    )

module _ (s : InMemoryStore) (valid : IsValidStore s) (t : Transaction) (w : IsWellFormed t) where
  abbrev own_rows : (pid : Uuid) → List Transaction
  own_rows pid = keep (λ x. x.portfolio_id == pid) s.transactions

  abbrev own_and_new : (pid : Uuid) → List Transaction
  own_and_new pid = keep (λ x. x.portfolio_id == pid) (s.transactions ++ t ∷ [])

  -- Another portfolio's ledger stays as it is.
  pub ledger_of-with_transaction_ne :
      (pid : Uuid)
      → (t.portfolio_id == pid) ≡ false
      → ledger_of pid (with_transaction s t) ≡ ledger_of pid s
  unfolding ledger_of
  ledger_of-with_transaction_ne pid e = ap (sort_by listing_order_le) (
      keep-append (λ x. x.portfolio_id == pid) s.transactions (t ∷ [])
      ∙ rw e (append-nil (own_rows pid)))

  -- The portfolio's own ledger derives what the check of `create` derived.
  pub derive_positions-with_transaction :
      derive_positions (ledger_of t.portfolio_id (with_transaction s t))
      ≡ derive_positions (ledger_of t.portfolio_id s ++ t ∷ [])
  unfolding ledger_of
  derive_positions-with_transaction =
      let pid = t.portfolio_id in
      let kept =
        All-keep IsWellFormed (λ x. x.portfolio_id == pid) s.transactions valid.well_formed in
      let more : own_and_new pid ≡ own_rows pid ++ t ∷ [] =
        keep-append (λ x. x.portfolio_id == pid) s.transactions (t ∷ []) ∙ ground (arith) in
      let both = All-append IsWellFormed (own_rows pid) (t ∷ []) kept (w, tt) in
      ap (λ l. derive_positions (sort_by listing_order_le l)) more
      ∙ derive_positions-sort_by (own_rows pid ++ t ∷ []) both
      ∙ sym (derive_positions-snoc_sorted (own_rows pid) kept t w)

  -- Adding a transaction that is new to its portfolio and derivable keeps the invariant.
  pub with_transaction-IsValidStore :
      stored t.portfolio_id t.external_id s ≡ none
      → IsDerivable (ledger_of t.portfolio_id s ++ t ∷ [])
      → IsValidStore (with_transaction s t)
  with_transaction-IsValidStore absent (ps, e) = record {
    well_formed = All-append IsWellFormed s.transactions (t ∷ []) valid.well_formed (w, tt);
    unique = IsUnique-snoc s.transactions t valid.unique absent;
    derivable = λ pid. elim (Bool-cases (t.portfolio_id == pid)) [
      | inl own ↦
          subst (λ k. IsDerivable (ledger_of k (with_transaction s t)))
            (==→eq t.portfolio_id pid own) (ps, derive_positions-with_transaction ∙ e)
      | inr other ↦ rw (ledger_of-with_transaction_ne pid other) (valid.derivable pid)
    ];
  }

-- Recording a transaction in its own portfolio keeps the invariant, however it ends.
pub Recording-IsValidStore :
    (t : Transaction) (s : InMemoryStore) {r : Result TransactionCreation × InMemoryStore}
    → Recording t.portfolio_id t s r
    → IsValidStore s
    → IsValidStore r.1
Recording-IsValidStore t s (refused e bad) v = v
Recording-IsValidStore t s (known x valid found same) v = v
Recording-IsValidStore t s (conflicting x valid found other) v = v
Recording-IsValidStore t s (underivable e valid absent bad) v = v
Recording-IsValidStore t s (added ps valid absent fine) v =
    with_transaction-IsValidStore s v t ((validate_transaction_iff t).0 valid) absent (ps, fine)

-- A recording that raises leaves the store as it was.
pub Recording-err :
    (pid : Uuid) (t : Transaction) (s : InMemoryStore) (e : Error)
    {r : Result TransactionCreation × InMemoryStore}
    → Recording pid t s r
    → r.0 ≡ err e
    → r.1 ≡ s
Recording-err pid t s e (refused x bad) h = refl
Recording-err pid t s e (known x valid found same) h = refl
Recording-err pid t s e (conflicting x valid found other) h = refl
Recording-err pid t s e (underivable x valid absent bad) h = refl
Recording-err pid t s e (added ps valid absent fine) h = absurd (cc)

-- Recording a payload that is stored already.
pub record_transaction_known :
    (pid : Uuid) (t x : Transaction) (s : InMemoryStore)
    → validate_transaction t ≡ ok tt
    → stored pid t.external_id s ≡ some x
    → same_transaction_payload x t ≡ true
    → record_transaction pid t s ≡ (ok (record { transaction = x; created = false }), s)
unfolding record_transaction transactions_get_by_external_id
record_transaction_known pid t x s valid found same = rw (valid, found, same) refl

-- Recording touches no portfolio.
pub Recording-portfolios :
    (pid : Uuid) (t : Transaction) (s : InMemoryStore)
    {r : Result TransactionCreation × InMemoryStore}
    → Recording pid t s r
    → r.1.portfolios ≡ s.portfolios
Recording-portfolios pid t s (refused x bad) = refl
Recording-portfolios pid t s (known x valid found same) = refl
Recording-portfolios pid t s (conflicting x valid found other) = refl
Recording-portfolios pid t s (underivable x valid absent bad) = refl
Recording-portfolios pid t s (added ps valid absent fine) = refl
