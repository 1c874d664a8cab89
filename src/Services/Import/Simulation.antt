-- ===== src/Services/Import/Simulation.antt =====
-- The state of a preview stands for a store: the same ledger once sorted, and the same
-- transaction under each external identifier.
use portfolio_analytics_api.Domain.Holdings.Resorting.{derive_positions-eq_of_sorted}
use portfolio_analytics_api.Domain.Holdings.Positions.{ledger_order}
use portfolio_analytics_api.Domain.Holdings.Validation.{IsWellFormed}
use mathlib.Core.Path.{subst}
use portfolio_analytics_api.Memory.{InMemoryStore, ledger_of, has_external_id}
use portfolio_analytics_api.Services.Transactions.Invariant.{
  with_transaction-IsValidStore, IsDerivable, stored, with_transaction, IsValidStore, IsUnique,
}
use portfolio_analytics_api.Domain.Holdings.{derive_positions, ledger_order_le}
use portfolio_analytics_api.Domain.Models.{Uuid, Transaction}
use portfolio_analytics_api.Common.Text.{text_eq→eq, text_eq_symm, text_eq, Text}
use portfolio_analytics_api.Common.{
  sym, All-append, keep-append, All-keep, All, ◌++◌, false, ==→eq, ap, if◌then◌else◌, Bool-cases,
  ◌==◌, ◌∙◌, ◌≡◌, keep, find, Bool, Option, List, arith, inr, inl, ◌∷◌, [], some, none, refl,
}
use portfolio_analytics_api.Common.Sort.{
  sort_by_snoc, insert_last, All-sort_by, sort_by_twice, sort_by, insert_by,
}
use portfolio_analytics_api.Services.Import.Preview.{preview_state, PreviewState, index_ledger}
use portfolio_analytics_api.Domain.Quantities.{
  text_eq-right, text_eq-left, lookup-insert, Dict, lookup, insert,
}

abbrev pub named : Text → Transaction → Bool
named x t = text_eq t.external_id x

-- No external identifier stands twice in the ledger of one portfolio.
abbrev pub IsNamedOnce : List Transaction → Type 0
IsNamedOnce [] = Unit
IsNamedOnce (t ∷ ts) = (find (named t.external_id) ts ≡ none) × IsNamedOnce ts

find-insert_by :
    (x : Text) (t : Transaction) (ts : List Transaction)
    → find (named t.external_id) ts ≡ none
    → find (named x) (insert_by ledger_order_le t ts)
      ≡ (if named x t then some t else find (named x) ts)
find-insert_by x t [] h = refl
find-insert_by x t (u ∷ ts) h = ground (
  arith,
  find-insert_by x t ts,
  text_eq-left u.external_id t.external_id x,
  text_eq-right x u.external_id t.external_id,
  text_eq-right t.external_id x u.external_id,
  text_eq_symm t.external_id u.external_id,
  text_eq_symm x t.external_id,
  text_eq_symm x u.external_id,
)

find-sort_by :
    (x : Text) (ts : List Transaction)
    → IsNamedOnce ts
    → find (named x) (sort_by ledger_order_le ts) ≡ find (named x) ts
unfolding sort_by
find-sort_by x [] h = refl
find-sort_by x (t ∷ ts) h =
    find-insert_by x t (sort_by ledger_order_le ts) (find-sort_by t.external_id ts h.1 ∙ h.0)
    ∙ ap (λ o. if named x t then some t else o) (find-sort_by x ts h.1)

IsNamedOnce-insert_by :
    (t : Transaction) (ts : List Transaction)
    → find (named t.external_id) ts ≡ none
    → IsNamedOnce ts
    → IsNamedOnce (insert_by ledger_order_le t ts)
IsNamedOnce-insert_by t [] h k = (refl, tt)
IsNamedOnce-insert_by t (u ∷ ts) h k = ground (
  arith,
  IsNamedOnce-insert_by t ts,
  find-insert_by u.external_id t ts,
  text_eq_symm t.external_id u.external_id,
)

IsNamedOnce-sort_by :
    (ts : List Transaction) → IsNamedOnce ts → IsNamedOnce (sort_by ledger_order_le ts)
unfolding sort_by
IsNamedOnce-sort_by [] h = tt
IsNamedOnce-sort_by (t ∷ ts) h =
    IsNamedOnce-insert_by t (sort_by ledger_order_le ts) (find-sort_by t.external_id ts h.1 ∙ h.0)
      (IsNamedOnce-sort_by ts h.1)

module _ (pid : Uuid) where
  abbrev own_rows : List Transaction → List Transaction
  own_rows = keep (λ t. t.portfolio_id == pid)

  find-own_rows :
      (x : Text) (ts : List Transaction)
      → find (named x) (own_rows ts) ≡ find (has_external_id pid x) ts
  find-own_rows x [] = refl
  find-own_rows x (t ∷ ts) = ground (arith, find-own_rows x ts)

  IsNamedOnce-own_rows : (ts : List Transaction) → IsUnique ts → IsNamedOnce (own_rows ts)
  IsNamedOnce-own_rows [] h = tt
  IsNamedOnce-own_rows (t ∷ ts) h =
      let rest = IsNamedOnce-own_rows ts h.1 in
      elim (Bool-cases (t.portfolio_id == pid)) [
        | inr other ↦ rw other rest
        | inl own ↦ rw own (
          find-own_rows t.external_id ts
              ∙ subst (λ k. find (has_external_id k t.external_id) ts ≡ none)
                  (==→eq t.portfolio_id pid own) h.0,
          rest,
        )
      ]

abbrev first_of_both : Option Transaction → Option Transaction → Option Transaction
first_of_both none o = o
first_of_both (some t) o = some t

lookup-index_ledger :
    (x : Text) (ts : List Transaction) (d : Dict Transaction)
    → IsNamedOnce ts
    → lookup x (index_ledger ts d) ≡ first_of_both (find (named x) ts) (lookup x d)
lookup-index_ledger x [] d h = refl
lookup-index_ledger x (t ∷ ts) d h =
    lookup-index_ledger x ts (insert t.external_id t d) h.1
    ∙ ground (arith, lookup-insert x t.external_id t d, h.0, text_eq→eq t.external_id x)

absent_right : (o : Option Transaction) → first_of_both o none ≡ o
absent_right none = refl
absent_right (some t) = refl

ledger_of-IsWellFormed :
    (pid : Uuid) (s : InMemoryStore) → IsValidStore s → All IsWellFormed (ledger_of pid s)
unfolding ledger_of
ledger_of-IsWellFormed pid s v =
    All-sort_by ledger_order_le IsWellFormed (own_rows pid s.transactions)
      (All-keep IsWellFormed (λ t. t.portfolio_id == pid) s.transactions v.well_formed)

ledger_of_sorted :
    (pid : Uuid) (s : InMemoryStore) → sort_by ledger_order_le (ledger_of pid s) ≡ ledger_of pid s
unfolding ledger_of
ledger_of_sorted pid s = sort_by_twice ledger_order_le ledger_order (own_rows pid s.transactions)

ledger_of-with_own :
    (pid : Uuid) (s : InMemoryStore) (t : Transaction)
    → t.portfolio_id ≡ pid
    → ledger_of pid (with_transaction s t) ≡ insert_last ledger_order_le t (ledger_of pid s)
unfolding ledger_of
ledger_of-with_own pid s t own =
    let kept : own_rows pid (t ∷ []) ≡ t ∷ [] = ground arith in
    ap (sort_by ledger_order_le) (
      keep-append (λ x. x.portfolio_id == pid) s.transactions (t ∷ [])
      ∙ ap (λ l. own_rows pid s.transactions ++ l) kept)
    ∙ sort_by_snoc ledger_order_le ledger_order (own_rows pid s.transactions) t

stored-snoc :
    (pid : Uuid) (x : Text) (ts : List Transaction) (t : Transaction)
    → find (has_external_id pid x) ts ≡ none
    → find (has_external_id pid x) (ts ++ t ∷ [])
      ≡ (if has_external_id pid x t then some t else none)
stored-snoc pid x [] t h = refl
stored-snoc pid x (u ∷ ts) t h = ground (arith, stored-snoc pid x ts t)

stored-snoc_other :
    (pid : Uuid) (x : Text) (ts : List Transaction) (t : Transaction)
    → has_external_id pid x t ≡ false
    → find (has_external_id pid x) (ts ++ t ∷ []) ≡ find (has_external_id pid x) ts
stored-snoc_other pid x [] t h = rw h refl
stored-snoc_other pid x (u ∷ ts) t h = ground (arith, stored-snoc_other pid x ts t h)

-- A preview's state stands for the store whose rows it would add to.
pub record Simulates (pid : Uuid) (state : PreviewState) (s : InMemoryStore) : Type 0 where
  pub sorted : sort_by ledger_order_le state.ledger ≡ ledger_of pid s
  pub well_formed : All IsWellFormed state.ledger
  pub indexed : (x : Text) → lookup x state.by_external_id ≡ stored pid x s
  pub valid : IsValidStore s

-- The state that a preview starts from stands for the store that it read.
pub preview_state-Simulates :
    (pid : Uuid) (s : InMemoryStore)
    → IsValidStore s
    → Simulates pid (preview_state (ledger_of pid s)) s
unfolding preview_state ledger_of
preview_state-Simulates pid s v =
    let rows = own_rows pid s.transactions in
    let once = IsNamedOnce-own_rows pid s.transactions v.unique in
    record {
      sorted = sort_by_twice ledger_order_le ledger_order rows;
      well_formed =
          All-sort_by ledger_order_le IsWellFormed rows
            (All-keep IsWellFormed (λ t. t.portfolio_id == pid) s.transactions v.well_formed);
      indexed = λ x.
          lookup-index_ledger x (sort_by ledger_order_le rows) [] (IsNamedOnce-sort_by rows once)
          ∙ absent_right (find (named x) (sort_by ledger_order_le rows))
          ∙ find-sort_by x rows once
          ∙ find-own_rows pid x s.transactions;
      valid = v;
    }

module _ (pid : Uuid) (state : PreviewState) (s : InMemoryStore) (sim : Simulates pid state s)
    (t : Transaction) (w : IsWellFormed t) where
  -- A preview and the store try a transaction on ledgers that derive alike.
  pub derive_positions-Simulates :
      derive_positions (state.ledger ++ t ∷ []) ≡ derive_positions (ledger_of pid s ++ t ∷ [])
  derive_positions-Simulates =
      derive_positions-eq_of_sorted (state.ledger ++ t ∷ []) (ledger_of pid s ++ t ∷ [])
        (All-append IsWellFormed state.ledger (t ∷ []) sim.well_formed (w, tt))
        (All-append IsWellFormed (ledger_of pid s) (t ∷ []) (ledger_of-IsWellFormed pid s sim.valid)
          (w, tt))
        (sort_by_snoc ledger_order_le ledger_order state.ledger t
          ∙ ap (insert_last ledger_order_le t) (sim.sorted ∙ sym (ledger_of_sorted pid s))
          ∙ sym (sort_by_snoc ledger_order_le ledger_order (ledger_of pid s) t))

  abbrev Kept : Uuid → Type 0
  Kept k =
      stored k t.external_id s ≡ none
      → IsDerivable (ledger_of k s ++ t ∷ [])
      → IsValidStore (with_transaction s t)

  -- Adding the transaction on both sides keeps the correspondence.
  pub added-Simulates :
      t.portfolio_id ≡ pid
      → stored pid t.external_id s ≡ none
      → IsDerivable (ledger_of pid s ++ t ∷ [])
      → Simulates pid
          (record {
            ledger = state.ledger ++ t ∷ [];
            by_external_id = insert t.external_id t state.by_external_id;
          })
          (with_transaction s t)
  added-Simulates own absent fine = record {
    sorted =
        sort_by_snoc ledger_order_le ledger_order state.ledger t
        ∙ ap (insert_last ledger_order_le t) sim.sorted
        ∙ sym (ledger_of-with_own pid s t own);
    well_formed = All-append IsWellFormed state.ledger (t ∷ []) sim.well_formed (w, tt);
    indexed = λ x.
        lookup-insert x t.external_id t state.by_external_id
        ∙ elim (Bool-cases (text_eq t.external_id x)) [
          | inr other ↦
              rw other
                (sim.indexed x ∙ sym (stored-snoc_other pid x s.transactions t (ground (arith))))
          | inl same ↦ rw same (
              sym (
                stored-snoc pid x s.transactions t
                  (subst (λ k. stored pid k s ≡ none) (text_eq→eq t.external_id x same) absent)
                ∙ ground (arith)))
        ];
    valid = subst (λ k. Kept k) own (with_transaction-IsValidStore s sim.valid t w) absent fine;
  }
