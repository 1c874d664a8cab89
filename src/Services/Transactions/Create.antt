-- ===== src/Services/Transactions/Create.antt =====
-- `TransactionService.create`: ownership, atomicity, the invariant, idempotent retries and
-- conflicts.
use mathlib.Core.Path.{subst}
use portfolio_analytics_api.Services.Transactions.Redraw.{
  Recording-retry, build_transaction_redrawn, redraw, build_transaction_identity,
}
use portfolio_analytics_api.Services.Transactions.Invariant.{
  Recording-portfolios, Recording, recording, Recording-IsValidStore, Recording-err, IsValidStore,
}
use portfolio_analytics_api.Errors.{Result-cases, portfolio_not_found, ok, err, Error}
use portfolio_analytics_api.Common.{
  ◌∙◌, false, sym, refl, ==→eq, ◌==◌, Bool-cases, inr, inl, arith, some, ◌≡◌, Option-cases, ◌⊎◌,
}
use portfolio_analytics_api.Memory.{portfolios_get_for_update, get_entry, InMemoryStore}
use portfolio_analytics_api.Services.Payload.{NewTransaction, build_transaction}
use portfolio_analytics_api.Domain.Models.{is_naive, Transaction, DateTime, Portfolio, Uuid}
use portfolio_analytics_api.Services.Transactions.{TransactionCreation, create, record_transaction}

-- The portfolio is there and belongs to the caller.
abbrev pub Owns : Uuid → Uuid → InMemoryStore → Type 0
Owns owner_id portfolio_id s =
    (p : Portfolio) × (get_entry portfolio_id s.portfolios ≡ some p) × (p.owner_id ≡ owner_id)

pub dec_Owns :
    (owner_id pid : Uuid) (s : InMemoryStore) → Owns owner_id pid s ⊎ ¬ (Owns owner_id pid s)
dec_Owns owner_id pid s = elim (Option-cases (get_entry pid s.portfolios)) [
  | inl e ↦ inr (λ (p, found, own). cc)
  | inr (p, e) ↦ elim (Bool-cases (p.owner_id == owner_id)) [
    | inl same ↦ inl (p, e, ==→eq p.owner_id owner_id same)
    | inr other ↦ inr (λ (q, found, own). let same : p ≡ q = cc in ground (arith, rw same at other))
  ]
]

module _ (owner_id pid : Uuid) (new : NewTransaction) (id : Uuid) (now : DateTime)
    (s : InMemoryStore) where
  -- A caller who does not own the portfolio is told that it does not exist, and nothing changes.
  pub create_not_owned :
      ¬ (Owns owner_id pid s)
      → create owner_id pid new id now s ≡ (err (portfolio_not_found pid), s)
  unfolding create portfolios_get_for_update
  create_not_owned h = elim (Option-cases (get_entry pid s.portfolios)) [
    | inl e ↦ rw e refl
    | inr (p, e) ↦ elim (Bool-cases (p.owner_id == owner_id)) [
      | inl same ↦ absurd (h (p, e, ==→eq p.owner_id owner_id same))
      | inr other ↦ rw (e, other) refl
    ]
  ]

  pub create_unbuilt :
      (e : Error)
      → Owns owner_id pid s
      → build_transaction pid new id now ≡ err e
      → create owner_id pid new id now s ≡ (err e, s)
  unfolding create portfolios_get_for_update
  create_unbuilt e (p, found, own) bad = ground arith

  pub create_built :
      (t : Transaction)
      → Owns owner_id pid s
      → build_transaction pid new id now ≡ ok t
      → create owner_id pid new id now s ≡ record_transaction pid t s
  unfolding create portfolios_get_for_update
  create_built t (p, found, own) fine = ground arith

module _ (owner_id pid : Uuid) (new : NewTransaction) (id : Uuid) (now : DateTime)
    (s : InMemoryStore) where
  -- `create` keeps the invariant of the store, whether it returns or raises.
  pub create-IsValidStore : IsValidStore s → IsValidStore (create owner_id pid new id now s).1
  create-IsValidStore v = elim (dec_Owns owner_id pid s) [
    | inr stranger ↦ rw (create_not_owned owner_id pid new id now s stranger) v
    | inl own ↦ elim (Result-cases (build_transaction pid new id now)) [
      | inr (e, bad) ↦ rw (create_unbuilt owner_id pid new id now s e own bad) v
      | inl (t, fine) ↦
          let mine = (build_transaction_identity pid new id now t fine).0 in
          rw (create_built owner_id pid new id now s t own fine) (
            Recording-IsValidStore t s
              (subst (λ k. Recording k t s (record_transaction pid t s)) (sym mine)
                (recording pid t s))
              v)
    ]
  ]

  -- A `create` that raises leaves the store as it was.
  pub create-err :
      (e : Error)
      → (create owner_id pid new id now s).0 ≡ err e
      → (create owner_id pid new id now s).1 ≡ s
  create-err e h = elim (dec_Owns owner_id pid s) [
    | inr stranger ↦ rw (create_not_owned owner_id pid new id now s stranger) refl
    | inl own ↦ elim (Result-cases (build_transaction pid new id now)) [
      | inr (x, bad) ↦ rw (create_unbuilt owner_id pid new id now s x own bad) refl
      | inl (t, fine) ↦
          let same = create_built owner_id pid new id now s t own fine in
          rw same (Recording-err pid t s e (recording pid t s) (rw same at h))
    ]
  ]

  -- `create` touches no portfolio.
  pub create-portfolios : (create owner_id pid new id now s).1.portfolios ≡ s.portfolios
  create-portfolios = elim (dec_Owns owner_id pid s) [
    | inr stranger ↦ rw (create_not_owned owner_id pid new id now s stranger) refl
    | inl own ↦ elim (Result-cases (build_transaction pid new id now)) [
      | inr (x, bad) ↦ rw (create_unbuilt owner_id pid new id now s x own bad) refl
      | inl (t, fine) ↦
          rw (create_built owner_id pid new id now s t own fine)
            (Recording-portfolios pid t s (recording pid t s))
    ]
  ]

-- Repeating a successful `create` returns the transaction that the first call returned, reports
-- that nothing was created, and changes nothing: a client may retry. The clock is aware.
pub create-retry :
    (owner_id pid : Uuid) (new : NewTransaction) (id id' : Uuid) (now now' : DateTime)
    (s s' : InMemoryStore) (c : TransactionCreation)
    → is_naive now' ≡ false
    → create owner_id pid new id now s ≡ (ok c, s')
    → create owner_id pid new id' now' s'
      ≡ (ok (record { transaction = c.transaction; created = false }), s')
create-retry owner_id pid new id id' now now' s s' c zone h = elim (dec_Owns owner_id pid s) [
  | inr stranger ↦ absurd (cc (create_not_owned owner_id pid new id now s stranger))
  | inl own ↦ elim (Result-cases (build_transaction pid new id now)) [
    | inr (x, bad) ↦ absurd (cc (create_unbuilt owner_id pid new id now s x own bad))
    | inl (t, fine) ↦
        let mine = (build_transaction_identity pid new id now t fine).0 in
        let same = create_built owner_id pid new id now s t own fine in
        let ends : record_transaction pid t s ≡ (ok c, s') = sym same ∙ h in
        let first : Recording pid t s (ok c, s') = rw ends at (recording pid t s) in
        let (p, found, owned) = own in
        let found' : get_entry pid s'.portfolios ≡ some p =
          rw (Recording-portfolios pid t s first) found in
        create_built owner_id pid new id' now' s' (redraw t id' now') (p, found', owned)
          (build_transaction_redrawn pid new id id' now now' t fine)
        ∙ Recording-retry pid t s id' now' c first mine zone refl
  ]
]
