-- ===== src/Services/Portfolios/Listing.antt =====
-- The pages of `PortfolioService.list`, and what a new portfolio changes in them.
use portfolio_analytics_api.Memory.Entries.{get_entry-put_entry, entry_values-put_entry}
use portfolio_analytics_api.Common.Text.{strip, upper, Text}
use portfolio_analytics_api.Memory.{
  has_entry, portfolios_count, put_entry, portfolios_get, portfolios_list, entry_values,
  portfolios_of, portfolios_add, InMemoryStore, get_entry,
}
use portfolio_analytics_api.Services.Portfolios.{
  get_portfolio, list_portfolios, PortfolioPage, create_portfolio,
}
use portfolio_analytics_api.Domain.Models.{Portfolio, Uuid}
use portfolio_analytics_api.Common.{
  Bool-cases, none, sym, Option-cases, ◌∙◌, All-keep_test, length-keep, length, ◌==◌, ap, suc, ◌+◌,
  ◌≡◌, All, take, drop, count, ◌++◌, ℕ, Bool, List, arith, inr, inl, ◌∷◌, [], false, true, refl,
}
use native.Mathlib.Numerals.{unary_clauses}
use Prim.Native.Nat.{zero, suc}
use mathlib.Core.List.{reverse, reverse_aux}
use portfolio_analytics_api.Errors.{portfolio_already_exists, err, ok}

module _ {A : Type 0} where
  reverse_aux-append :
      (xs ys r : List A) → reverse_aux (xs ++ ys) r ≡ reverse_aux ys (reverse_aux xs r)
  reverse_aux-append [] ys r = refl
  reverse_aux-append (x ∷ xs) ys r = reverse_aux-append xs ys (x ∷ r)

  count-reverse_aux :
      (test : A → Bool) (xs r : List A)
      → count test (reverse_aux xs r) ≡ count test xs + count test r
  count-reverse_aux test [] r = ground arith
  count-reverse_aux test (x ∷ xs) r = ground (arith, count-reverse_aux test xs (x ∷ r))

  drop-drop : (m n : ℕ) (xs : List A) → drop n (drop m xs) ≡ drop (m + n) xs
  drop-drop zero n xs = ap (λ k. drop k xs) (omega arith)
  drop-drop (suc m) zero [] = simp unary_clauses refl
  drop-drop (suc m) (suc n) [] = simp unary_clauses refl
  drop-drop (suc m) n (x ∷ xs) =
      let e : suc (m + n) ≡ suc m + n = omega arith in
      drop-drop m n xs ∙ ap (λ k. drop k (x ∷ xs)) e

  take-add : (m n : ℕ) (xs : List A) → take (m + n) xs ≡ take m xs ++ take n (drop m xs)
  take-add zero n xs = ap (λ k. take k xs) (omega arith)
  take-add (suc m) zero [] = simp unary_clauses refl
  take-add (suc m) (suc n) [] = simp unary_clauses refl
  take-add (suc m) n (x ∷ xs) =
      let e : suc m + n ≡ suc (m + n) = omega arith in
      ap (λ k. take k (x ∷ xs)) e ∙ ap (λ l. x ∷ l) (take-add m n xs)

  All-take {κ} : (P : A → Type κ) (n : ℕ) (xs : List A) → All P xs → All P (take n xs)
  All-take P zero xs h = tt
  All-take P (suc n) [] h = tt
  All-take P (suc n) (x ∷ xs) h = (h.0, All-take P n xs h.1)

  All-drop {κ} : (P : A → Type κ) (n : ℕ) (xs : List A) → All P xs → All P (drop n xs)
  All-drop P zero xs h = h
  All-drop P (suc n) [] h = tt
  All-drop P (suc n) (x ∷ xs) h = All-drop P n xs h.1

module _ (owner_id : Uuid) (s : InMemoryStore) where
  portfolios_count_lem :
      count (λ p. p.owner_id == owner_id) (entry_values s.portfolios)
      ≡ length (portfolios_of owner_id s)
  unfolding portfolios_of
  portfolios_count_lem =
      let counted =
        count-reverse_aux (λ p. p.owner_id == owner_id) (entry_values s.portfolios) [] in
      let kept = length-keep (λ p. p.owner_id == owner_id) (reverse (entry_values s.portfolios)) in
      ground arith

  portfolios_of-owned : All (λ p. (p.owner_id == owner_id) ≡ true) (portfolios_of owner_id s)
  unfolding portfolios_of
  portfolios_of-owned =
      All-keep_test (λ p. p.owner_id == owner_id) (reverse (entry_values s.portfolios))

  -- A page of the caller's portfolios, newest first.
  abbrev pub page_of : ℕ → ℕ → PortfolioPage
  page_of limit offset = record {
    items = take limit (drop offset (portfolios_of owner_id s));
    total = length (portfolios_of owner_id s);
    limit = limit;
    offset = offset;
  }

  list_portfolios-page_of :
      (limit offset : ℕ) → list_portfolios owner_id limit offset s ≡ (ok (page_of limit offset), s)
  unfolding list_portfolios portfolios_list portfolios_count
  list_portfolios-page_of limit offset = rw portfolios_count_lem refl

  -- A page and the page after it are together the larger page at the same offset, with the same
  -- total; and a page shows no portfolio of another owner.
  pub list_portfolios_pages :
      (limit more offset : ℕ)
      → (a b whole : PortfolioPage) × (list_portfolios owner_id limit offset s ≡ (ok a, s))
        × (list_portfolios owner_id more (offset + limit) s ≡ (ok b, s))
        × (list_portfolios owner_id (limit + more) offset s ≡ (ok whole, s))
        × (whole.items ≡ a.items ++ b.items)
        × (whole.total ≡ a.total)
        × (b.total ≡ a.total)
        × All (λ p. (p.owner_id == owner_id) ≡ true) a.items
  list_portfolios_pages limit more offset =
      let mine = portfolios_of owner_id s in
      (
        page_of limit offset,
        page_of more (offset + limit),
        page_of (limit + more) offset,
        list_portfolios-page_of limit offset,
        list_portfolios-page_of more (offset + limit),
        list_portfolios-page_of (limit + more) offset,
        take-add limit more (drop offset mine)
            ∙ ap (λ l. take limit (drop offset mine) ++ take more l) (drop-drop offset limit mine),
        refl,
        refl,
        All-take _ limit (drop offset mine) (All-drop _ offset mine portfolios_of-owned),
      )

has_entry-none :
    {V : Type 0} (k : Uuid) (d : List (Uuid × V)) → has_entry k d ≡ false → get_entry k d ≡ none
has_entry-none k d h = elim (Option-cases (get_entry k d)) [
  | inl e ↦ e
  | inr (v, e) ↦ absurd (ground arith)
]

portfolios_add_taken :
    (p : Portfolio) (s : InMemoryStore)
    → has_entry p.id s.portfolios ≡ true
    → portfolios_add p s ≡ (err (portfolio_already_exists p.id), s)
unfolding portfolios_add
portfolios_add_taken p s h = ground arith

portfolios_add_fresh :
    (p : Portfolio) (s : InMemoryStore)
    → has_entry p.id s.portfolios ≡ false
    → portfolios_add p s ≡ (
      ok tt,
      record s {
        portfolios = put_entry p.id p s.portfolios;
        transactions = s.transactions ++ p.transactions;
      },
    )
unfolding portfolios_add
portfolios_add_fresh p s h = ground arith

-- A portfolio that was created is the first of its owner's list, before those that were there;
-- the list of another owner stays as it was, and the owner can read the portfolio.
pub create_portfolio-listed :
    (owner_id other : Uuid) (name base_currency : Text) (id : Uuid) (s s' : InMemoryStore)
    (p : Portfolio)
    → (owner_id == other) ≡ false
    → create_portfolio owner_id name base_currency id s ≡ (ok p, s')
    → (portfolios_of owner_id s' ≡ p ∷ portfolios_of owner_id s)
      × (portfolios_of other s' ≡ portfolios_of other s)
      × (get_portfolio owner_id id s' ≡ (ok p, s'))
unfolding create_portfolio get_portfolio portfolios_get portfolios_of
create_portfolio-listed owner_id other name base_currency id s s' p stranger h =
    let made : Portfolio = record {
      id = id;
      owner_id = owner_id;
      name = name;
      base_currency = upper (strip base_currency);
      transactions = [];
    } in
    elim (Bool-cases (has_entry id s.portfolios)) [
      | inl taken ↦ let refused = portfolios_add_taken made s taken in absurd (ground arith)
      | inr fresh ↦
          let added = portfolios_add_fresh made s fresh in
          let stored : InMemoryStore = record s {
            portfolios = put_entry id made s.portfolios;
            transactions = s.transactions ++ [];
          } in
          let ran : create_portfolio owner_id name base_currency id s ≡ (ok made, stored) =
            ground arith in
          let ends : (ok made, stored) ≡ (ok p, s') = sym ran ∙ h in
          let same : (made ≡ p) × (stored ≡ s') =
            (ground (arith, ap (λ r. r.0) ends), ap (λ r. r.1) ends) in
          let newest : reverse (entry_values stored.portfolios)
              ≡ made ∷ reverse (entry_values s.portfolios) =
            ap reverse
              (entry_values-put_entry id made s.portfolios (has_entry-none id s.portfolios fresh))
            ∙ reverse_aux-append (entry_values s.portfolios) (made ∷ []) [] in
          let found = get_entry-put_entry id made s.portfolios in
          rw (← same.0, ← same.1) (rw newest (ground arith), rw newest (ground arith), ground arith)
    ]
