-- ===== src/Services/Import/Agreement.antt =====
-- A preview foretells its commit, row by row and in the totals; a preview changes nothing, and a
-- commit keeps the invariant of the store.
use portfolio_analytics_api.Services.Import.Simulation.{preview_state-Simulates}
use portfolio_analytics_api.Services.Import.Lockstep.{preview_rows-Foretold}
use portfolio_analytics_api.Services.Transactions.Listing.{
  list_transactions-stranger, list_transactions-owned,
}
use portfolio_analytics_api.Services.Transactions.Create.{Owns, dec_Owns}
use portfolio_analytics_api.Services.Transactions.Invariant.{IsValidStore}
use portfolio_analytics_api.Memory.{portfolios_get, ledger_of, InMemoryStore}
use portfolio_analytics_api.Domain.Models.{DateTime, Uuid}
use portfolio_analytics_api.Services.Import.Commit.{
  commit_rows, summarize_commit, commit, TransactionImportCommit,
}
use portfolio_analytics_api.Services.Import.Preview.{
  preview_state, preview_rows, preview_ledger, summarize_preview, preview, TransactionImportPreview,
}
use portfolio_analytics_api.Services.Import.Rows.{AllSettle, Foretells}
use portfolio_analytics_api.Common.{arith, inr, inl, length, ◌≡◌, ℕ, List, ◌∷◌, [], refl}
use portfolio_analytics_api.Services.Import.{
  count_import_status, status_eq, TransactionImportCandidate, TransactionImportRowResult,
  TransactionImportRowStatus, ready, replay, invalid, created, replayed, failed,
}
use portfolio_analytics_api.Errors.{Result, ok, >>=-eq-ok}

Foretells-flags :
    (a b : TransactionImportRowStatus)
    → Foretells a b
    → (status_eq b created ≡ status_eq a ready)
      × (status_eq b replayed ≡ status_eq a replay)
      × (status_eq b failed ≡ status_eq a invalid)
Foretells-flags ready b h = rw h (refl, refl, refl)
Foretells-flags replay b h = rw h (refl, refl, refl)
Foretells-flags invalid b h = rw h (refl, refl, refl)
Foretells-flags created b h = absurd h
Foretells-flags replayed b h = absurd h
Foretells-flags failed b h = absurd h

abbrev SameCounts : List TransactionImportRowResult → List TransactionImportRowResult → Type 0
SameCounts ps cs =
    (count_import_status cs created ≡ count_import_status ps ready)
    × (count_import_status cs replayed ≡ count_import_status ps replay)
    × (count_import_status cs failed ≡ count_import_status ps invalid)
    × (length cs ≡ length ps)

AllSettle-SameCounts :
    (ps cs : List TransactionImportRowResult) → AllSettle ps cs → SameCounts ps cs
AllSettle-SameCounts [] [] h = (refl, refl, refl, refl)
AllSettle-SameCounts [] (c ∷ cs) h = absurd h
AllSettle-SameCounts (p ∷ ps) [] h = absurd h
AllSettle-SameCounts (p ∷ ps) (c ∷ cs) h =
    let (a, b, d) = Foretells-flags p.status c.status h.0.foretold in
    let (i, j, k, l) = AllSettle-SameCounts ps cs h.1 in
    (rw (a, i) refl, rw (b, j) refl, rw (d, k) refl, rw l refl)

-- What a preview promises of the commit of the same document.
pub record Promises (p : TransactionImportPreview) (c : TransactionImportCommit) : Type 0 where
  pub rows_settle : AllSettle p.rows c.rows
  pub created_ready : c.created_rows ≡ p.ready_rows
  pub replayed_replay : c.replayed_rows ≡ p.replay_rows
  pub failed_invalid : c.failed_rows ≡ p.invalid_rows
  pub same_total : c.total_rows ≡ p.total_rows

Promises-summary :
    (rows committed : List TransactionImportRowResult) (p : TransactionImportPreview)
    → AllSettle rows committed
    → ok (summarize_preview rows) ≡ ok p
    → Promises p (summarize_commit committed)
unfolding summarize_preview summarize_commit
Promises-summary rows committed p settle h =
    let same : summarize_preview rows ≡ p = ground arith in
    let (i, j, k, l) = AllSettle-SameCounts rows committed settle in
    rw (← same) (record {
      rows_settle = settle;
      created_ready = i;
      replayed_replay = j;
      failed_invalid = k;
      same_total = l;
    })

module _ (parser : List ℕ → Result (List TransactionImportCandidate)) (draw : ℕ → Uuid × DateTime)
    (owner_id pid : Uuid) (csv_data : List ℕ) (s : InMemoryStore) where
  -- A preview leaves the store as it was.
  pub preview-unchanged : (preview parser draw owner_id pid csv_data s).1 ≡ s
  unfolding preview
  preview-unchanged = elim (dec_Owns owner_id pid s) [
    | inl own ↦ rw (list_transactions-owned owner_id pid s own) refl
    | inr stranger ↦ rw (list_transactions-stranger owner_id pid s stranger) refl
  ]

  commit_returns :
      (candidates : List TransactionImportCandidate) (rows : List TransactionImportRowResult)
      → Owns owner_id pid s
      → parser csv_data ≡ ok candidates
      → (commit_rows owner_id pid draw candidates 0 s).0 ≡ ok rows
      → (commit parser draw owner_id pid csv_data s).0 ≡ ok (summarize_commit rows)
  unfolding commit portfolios_get
  commit_returns candidates rows (q, found, own) parsed returned = ground arith

  -- On a valid store, when a preview returns, a commit of the same document with the same
  -- identifiers and times returns too, and ends each row as foretold: ready rows are created
  -- with the transaction shown, replays are replayed, invalid rows fail, and the totals agree.
  pub commit-preview :
      (p : TransactionImportPreview)
      → IsValidStore s
      → (preview parser draw owner_id pid csv_data s).0 ≡ ok p
      → (c : TransactionImportCommit) × ((commit parser draw owner_id pid csv_data s).0 ≡ ok c)
        × Promises p c
  unfolding preview preview_ledger
  commit-preview p v h = elim (dec_Owns owner_id pid s) [
    | inr stranger ↦ absurd (cc (rw (list_transactions-stranger owner_id pid s stranger) at h))
    | inl own ↦
        let listed : preview_ledger parser draw pid csv_data (ledger_of pid s) ≡ ok p =
          rw (list_transactions-owned owner_id pid s own) at h in
        let (candidates, parsed, more) = >>=-eq-ok (parser csv_data) _ listed in
        let (rows, shown, whole) =
          >>=-eq-ok (preview_rows pid draw candidates 0 (preview_state (ledger_of pid s))) _ more in
        let f =
          preview_rows-Foretold owner_id pid draw candidates 0 (preview_state (ledger_of pid s)) s
            rows own (preview_state-Simulates pid s v) shown in
        (
          summarize_commit f.committed,
          commit_returns candidates f.committed own parsed f.returned,
          Promises-summary rows f.committed p f.settle whole,
        )
  ]
