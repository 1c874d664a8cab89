-- ===== src/Services/Import/Rows.antt =====
-- One row of an import: what the preview says of it and what the commit makes of it.
use portfolio_analytics_api.Domain.Holdings.Validation.{validate_transaction_iff}
use portfolio_analytics_api.Common.Text.{Text}
use portfolio_analytics_api.Domain.Quantities.{insert, lookup}
use portfolio_analytics_api.Domain.Holdings.{validate_transaction}
use portfolio_analytics_api.Services.Transactions.Invariant.{
  with_transaction, added, known, underivable, conflicting, refused, Recording,
}
use portfolio_analytics_api.Services.Import.Simulation.{
  added-Simulates, derive_positions-Simulates, Simulates,
}
use portfolio_analytics_api.Memory.{InMemoryStore}
use portfolio_analytics_api.Domain.Models.{Transaction, Uuid}
use portfolio_analytics_api.Common.{
  ◌++◌, Option, ◌∙◌, ℕ, some, arith, List, ◌≡◌, ◌∷◌, [], none, refl,
}
use portfolio_analytics_api.Services.Import.{
  invalid_ledger_issue, idempotency_issue, invalid_transaction_issue, import_row_result,
  TransactionImportIssue, ready, replay, invalid, created, replayed, failed,
  TransactionImportCandidate, TransactionImportRowResult, TransactionImportRowStatus,
}
use portfolio_analytics_api.Services.Import.Preview.{
  RowStep, preview_resolved, except_invalid, PreviewState,
}
use portfolio_analytics_api.Services.Import.Commit.{commit_outcome}
use portfolio_analytics_api.Services.Transactions.{TransactionCreation}
use portfolio_analytics_api.Errors.{invalid_transaction, TransactionFault, Error, Result, ok, err}

-- The status of a row in the preview and in the commit.
abbrev pub Foretells : TransactionImportRowStatus → TransactionImportRowStatus → Type 0
Foretells ready status = status ≡ created
Foretells replay status = status ≡ replayed
Foretells invalid status = status ≡ failed
Foretells _ status = ⊥

-- A row of the preview and the row of the commit for the same candidate. The issues differ in
-- one code: a refused ledger is `invalid_ledger` in a preview, `invalid_transaction` in a commit.
pub record Settles (p c : TransactionImportRowResult) : Type 0 where
  pub same_row : p.row_number ≡ c.row_number
  pub same_external_id : p.external_id ≡ c.external_id
  pub same_transaction : p.transaction ≡ c.transaction
  pub foretold : Foretells p.status c.status

abbrev pub AllSettle : List TransactionImportRowResult → List TransactionImportRowResult → Type 0
AllSettle [] [] = Unit
AllSettle [] (c ∷ cs) = ⊥
AllSettle (p ∷ ps) [] = ⊥
AllSettle (p ∷ ps) (c ∷ cs) = Settles p c × AllSettle ps cs

-- What a refused transaction does to a row of a preview.
pub except_invalid-err :
    {A B : Type 0} (e : Error) (proceed : A → Result B) (handler : TransactionFault → Result B)
    {b : B}
    → except_invalid (err e) proceed handler ≡ ok b
    → (fault : TransactionFault) × (e ≡ invalid_transaction fault) × (handler fault ≡ ok b)
except_invalid-err (invalid_transaction fault) proceed handler h = (fault, refl, h)
except_invalid-err _ proceed handler h = absurd (cc)

-- One row, tried and committed.
pub record Step (pid : Uuid) (row : TransactionImportRowResult) (state : PreviewState)
    (end : Result TransactionImportRowResult × InMemoryStore) : Type 0 where
  pub committed : TransactionImportRowResult
  pub returned : end.0 ≡ ok committed
  pub settles : Settles row committed
  pub simulates : Simulates pid state end.1

pub settled :
    {n : ℕ} {x : Option Text} {t : Option Transaction} {i j : List TransactionImportIssue}
    → Settles
        (record { row_number = n; external_id = x; status = invalid; transaction = t; issues = i })
        (record { row_number = n; external_id = x; status = failed; transaction = t; issues = j })
settled = record {
  same_row = refl;
  same_external_id = refl;
  same_transaction = refl;
  foretold = refl;
}

-- Each way in which a recording ends is the way that the preview saw.
module _ (pid : Uuid) (candidate : TransactionImportCandidate) (state : PreviewState)
    (s : InMemoryStore) (sim : Simulates pid state s) (row : TransactionImportRowResult)
    (state' : PreviewState) where
  abbrev pub returned_row : RowStep
  returned_row = ok (row, state')

  abbrev pub refusal : TransactionImportIssue → RowStep
  refusal issue = ok (import_row_result candidate invalid none (issue ∷ []), state)

  abbrev Returned : TransactionImportRowResult → PreviewState → Type 0
  Returned p next = ok (p, next) ≡ returned_row

  shown-Step :
      (p c : TransactionImportRowResult) (next : PreviewState) (s' : InMemoryStore)
      → Returned p next
      → Settles p c
      → Simulates pid next s'
      → Step pid row state' (ok c, s')
  shown-Step p c next s' h settles simulates =
      let shown : p ≡ row = ground arith in
      let kept : next ≡ state' = ground arith in
      record {
        committed = c;
        returned = refl;
        settles = rw (← shown) settles;
        simulates = rw (← kept) simulates;
      }

  -- A row that the preview refuses fails in the commit, whatever the issues say.
  pub refused-Step :
      (mine theirs : TransactionImportIssue)
      → refusal mine ≡ ok (row, state')
      → Step pid row state' (ok (import_row_result candidate failed none (theirs ∷ [])), s)
  refused-Step mine theirs h =
      shown-Step (import_row_result candidate invalid none (mine ∷ []))
        (import_row_result candidate failed none (theirs ∷ [])) state s h settled sim

  pub Recording-Step :
      (t : Transaction) {r : Result TransactionCreation × InMemoryStore}
      → Recording pid t s r
      → t.portfolio_id ≡ pid
      → except_invalid
          (validate_transaction t)
          (λ _. preview_resolved candidate t state (lookup t.external_id state.by_external_id))
          (λ fault. refusal (invalid_transaction_issue fault))
        ≡ ok (row, state')
      → Step pid row state' (commit_outcome candidate r.0, r.1)
  Recording-Step t (refused x bad) own h =
      let (fault, which, shown) = except_invalid-err x _ _ (rw bad at h) in
      rw which
        (refused-Step (invalid_transaction_issue fault) (invalid_transaction_issue fault) shown)
  Recording-Step t (known x valid found same) own h =
      shown-Step (import_row_result candidate replay (some x) [])
        (import_row_result candidate replayed (some x) []) state s
        (rw (valid, sim.indexed t.external_id ∙ found, same) at h)
        (record {
          same_row = refl;
          same_external_id = refl;
          same_transaction = refl;
          foretold = refl;
        })
        sim
  Recording-Step t (conflicting x valid found other) own h =
      refused-Step idempotency_issue idempotency_issue
        (rw (valid, sim.indexed t.external_id ∙ found, other) at h)
  Recording-Step t (underivable x valid absent bad) own h =
      let w = (validate_transaction_iff t).0 valid in
      let tried = derive_positions-Simulates pid state s sim t w ∙ bad in
      let (fault, which, shown) =
        except_invalid-err x _ _ (rw (valid, sim.indexed t.external_id ∙ absent, tried) at h) in
      rw which (refused-Step (invalid_ledger_issue fault) (invalid_transaction_issue fault) shown)
  Recording-Step t (added ps valid absent fine) own h =
      let w = (validate_transaction_iff t).0 valid in
      let tried = derive_positions-Simulates pid state s sim t w ∙ fine in
      shown-Step (import_row_result candidate ready (some t) [])
        (import_row_result candidate created (some t) [])
        (record {
          ledger = state.ledger ++ t ∷ [];
          by_external_id = insert t.external_id t state.by_external_id;
        })
        (with_transaction s t) (rw (valid, sim.indexed t.external_id ∙ absent, tried) at h)
        (record {
          same_row = refl;
          same_external_id = refl;
          same_transaction = refl;
          foretold = refl;
        })
        (added-Simulates pid state s sim t w own absent (ps, fine))
