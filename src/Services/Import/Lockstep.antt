-- ===== src/Services/Import/Lockstep.antt =====
-- The loops of preview and commit in lockstep: what the preview says of each row comes true.
use mathlib.Core.Path.{subst}
use portfolio_analytics_api.Domain.Holdings.{validate_transaction}
use portfolio_analytics_api.Services.Transactions.Invariant.{recording}
use portfolio_analytics_api.Services.Transactions.Redraw.{build_transaction_identity}
use portfolio_analytics_api.Services.Import.Rows.{
  settled, Settles, AllSettle, Recording-Step, refused-Step, except_invalid-err, Step,
}
use portfolio_analytics_api.Services.Import.Simulation.{Simulates}
use portfolio_analytics_api.Services.Transactions.Create.{
  create-portfolios, create_built, create_unbuilt, Owns,
}
use portfolio_analytics_api.Memory.{pure, Action, InMemoryStore}
use portfolio_analytics_api.Services.Payload.{build_transaction, NewTransaction}
use portfolio_analytics_api.Domain.Models.{DateTime, Uuid}
use portfolio_analytics_api.Common.{
  ◌+◌, arith, none, ◌∙◌, Option-cases, ℕ, List, sym, ◌∷◌, [], refl, ◌≡◌, inr, inl,
}
use portfolio_analytics_api.Memory
use portfolio_analytics_api.Services.Import.{
  import_row_result, importable, invalid_transaction_issue, invalid, failed,
  TransactionImportCandidate, TransactionImportRowResult,
}
use portfolio_analytics_api.Services.Import.Preview.{
  except_invalid, PreviewState, preview_new, preview_rows,
}
use portfolio_analytics_api.Services.Import.Commit.{commit_new, commit_rows}
use portfolio_analytics_api.Errors.{
  invalid_transaction, ◌>>◌, >>=-eq-ok, TransactionFault, Result-cases, Result, ok, err,
}

except_invalid-seq :
    {A B : Type 0} (m : Result (Unit {0})) (t : A) (proceed : A → Result B)
    (handler : TransactionFault → Result B)
    → except_invalid (m >> ok t) proceed handler ≡ except_invalid m (λ _. proceed t) handler
except_invalid-seq (ok x) t proceed handler = refl
except_invalid-seq (err (invalid_transaction fault)) t proceed handler = refl
except_invalid-seq (err _) t proceed handler = refl

-- One candidate: the preview's row and state, and what the commit does.
module _ (owner_id pid : Uuid) (candidate : TransactionImportCandidate) (new : NewTransaction)
    (id : Uuid) (now : DateTime) (state : PreviewState) (s : InMemoryStore)
    (own : Owns owner_id pid s) (sim : Simulates pid state s) (row : TransactionImportRowResult)
    (state' : PreviewState) where
  preview_new-Step :
      preview_new pid candidate new (id, now) state ≡ ok (row, state')
      → Step pid row state' (commit_new owner_id pid candidate new (id, now) s)
  unfolding preview_new commit_new
  preview_new-Step h = elim (Result-cases (build_transaction pid new id now)) [
    | inr (e, bad) ↦
        let (fault, which, shown) = except_invalid-err e _ _ (rw bad at h) in
        rw (create_unbuilt owner_id pid new id now s e own bad, which)
          (refused-Step pid candidate state s sim row state' (invalid_transaction_issue fault)
            (invalid_transaction_issue fault) shown)
    | inl (t, fine) ↦
        let mine = (build_transaction_identity pid new id now t fine).0 in
        rw (create_built owner_id pid new id now s t own fine) (
          Recording-Step pid candidate state s sim row state' t (recording pid t s) mine
            (sym (except_invalid-seq (validate_transaction t) t _ _) ∙ rw fine at h))
  ]

commit_new-portfolios :
    (owner_id pid : Uuid) (candidate : TransactionImportCandidate) (new : NewTransaction)
    (drawn : Uuid × DateTime) (s : InMemoryStore)
    → (commit_new owner_id pid candidate new drawn s).1.portfolios ≡ s.portfolios
unfolding commit_new
commit_new-portfolios owner_id pid candidate new (id, now) s =
    create-portfolios owner_id pid new id now s

-- The rows of a commit, given those of the preview.
pub record Foretold (pid : Uuid) (rows : List TransactionImportRowResult)
    (end : Result (List TransactionImportRowResult) × InMemoryStore) : Type 0 where
  pub committed : List TransactionImportRowResult
  pub returned : end.0 ≡ ok committed
  pub settle : AllSettle rows committed

Owns-portfolios :
    (owner_id pid : Uuid) (s s' : InMemoryStore)
    → s'.portfolios ≡ s.portfolios
    → Owns owner_id pid s
    → Owns owner_id pid s'
Owns-portfolios owner_id pid s s' e (p, found, own) = (p, rw e found, own)

module _ (owner_id pid : Uuid) (draw : ℕ → Uuid × DateTime) where
  invalid-Foretold :
      (c : TransactionImportCandidate) (rows rest : List TransactionImportRowResult)
      (end : Result (List TransactionImportRowResult) × InMemoryStore)
      → ok (import_row_result c invalid none [] ∷ rest) ≡ ok rows
      → Foretold pid rest end
      → Foretold pid rows
          (Memory.◌>>=◌ (λ _. end) (λ l. pure (import_row_result c failed none [] ∷ l)) end.1)
  invalid-Foretold c rows rest (r, s') h f =
      let whole : import_row_result c invalid none [] ∷ rest ≡ rows = ground arith in
      rw f.returned (record {
        committed = import_row_result c failed none [] ∷ f.committed;
        returned = refl;
        settle = rw (← whole) (settled, f.settle);
      })

  new-Foretold :
      (rows rest : List TransactionImportRowResult) (row : TransactionImportRowResult)
      (first : Result TransactionImportRowResult × InMemoryStore)
      (later : Action (List TransactionImportRowResult)) (committed : TransactionImportRowResult)
      → first.0 ≡ ok committed
      → Settles row committed
      → ok (row ∷ rest) ≡ ok rows
      → Foretold pid rest (later first.1)
      → Foretold pid rows
          (Memory.◌>>=◌ (λ _. first) (λ x. Memory.◌>>=◌ later (λ l. pure (x ∷ l))) first.1)
  new-Foretold rows rest row (r, s') later committed e settles h f =
      let whole : row ∷ rest ≡ rows = ground arith in
      rw (e, f.returned, Memory.◌>>=◌)
        (record {
          committed = committed ∷ f.committed;
          returned = refl;
          settle = rw (← whole) (settles, f.settle);
        })

  pub preview_rows-Foretold :
      (candidates : List TransactionImportCandidate) (n : ℕ) (state : PreviewState)
      (s : InMemoryStore) (rows : List TransactionImportRowResult)
      → Owns owner_id pid s
      → Simulates pid state s
      → preview_rows pid draw candidates n state ≡ ok rows
      → Foretold pid rows (commit_rows owner_id pid draw candidates n s)
  unfolding preview_rows commit_rows
  preview_rows-Foretold [] n state s rows own sim h =
      let none_left : ◌≡◌ {A = List TransactionImportRowResult} [] rows = ground arith in
      record { committed = []; returned = refl; settle = subst (λ l. AllSettle l []) none_left tt }
  preview_rows-Foretold (c ∷ cs) n state s rows own sim h = elim (Option-cases (importable c)) [
    | inl skipped ↦
        let (rest, read, whole) =
          >>=-eq-ok (preview_rows pid draw cs n state) _ (rw (skipped, preview_rows) at h) in
        rw (skipped, commit_rows)
          (invalid-Foretold c rows rest (commit_rows owner_id pid draw cs n s) whole
            (preview_rows-Foretold cs n state s rest own sim read))
    | inr (new, e) ↦
        let ((row, state'), tried, more) =
          >>=-eq-ok (preview_new pid c new (draw n) state) _ (rw (e, preview_rows) at h) in
        let (rest, read, whole) = >>=-eq-ok (preview_rows pid draw cs (n + 1) state') _ more in
        let step =
          preview_new-Step owner_id pid c new (draw n).0 (draw n).1 state s own sim row state'
            tried in
        let s' = (commit_new owner_id pid c new (draw n) s).1 in
        let own' =
          Owns-portfolios owner_id pid s s' (commit_new-portfolios owner_id pid c new (draw n) s)
            own in
        rw (e, commit_rows)
          (new-Foretold rows rest row (commit_new owner_id pid c new (draw n) s)
            (commit_rows owner_id pid draw cs (n + 1)) step.committed step.returned step.settles
            whole (preview_rows-Foretold cs (n + 1) state' s' rest own' step.simulates read))
  ]
