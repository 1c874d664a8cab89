-- ===== src/Api/Csv/Rows.antt =====
-- The candidates of a CSV document: one for each row that is not blank, in order, and what they
-- carry.
use Prim.Native.Nat.{suc}
use portfolio_analytics_api.Decimal.{Decimal}
use portfolio_analytics_api.Api.Csv.{
  csv_end, csv_malformed, max_csv_rows, raw_row, line_of, is_blank_row, csv_row, parse_rows,
  CsvRead, accepted, validation_issue, refused, allowed_headers, candidate_of, payload_from, RawRow,
  parse_cells, parse_row,
}
use portfolio_analytics_api.Common.Text.{Text}
use portfolio_analytics_api.Api.Schemas.{
  cash_with_trade_fields, trade_with_cash_amount, trade_incomplete, cash_amount_required, is_none,
  new_transaction_of, Validated, Document, payload_matches_transaction_type, check_type, IsPydantic,
  TransactionInput, occurred_at_requires_timezone, Pydantic,
}
use portfolio_analytics_api.Services.Import.{TransactionImportCandidate}
use portfolio_analytics_api.Services.Payload.{NewTransaction}
use portfolio_analytics_api.Domain.Models.{
  sell, buy, withdrawal, deposit, naive, aware, DateTime, TransactionType,
}
use portfolio_analytics_api.Common.{
  arith, false, leb, Bool-cases, ◌≤◌, ◌+◌, ◌&&◌, length, ◌||◌, keep, not, Bool, if◌then◌else◌, ap,
  ◌∙◌, ℕ, map, ◌⊎◌, ◌≢◌, ◌≡◌, Option, List, inr, inl, ◌∷◌, [], some, none, refl,
}
use portfolio_analytics_api.Errors.{raise_if-ok, import_format, raise_if, >>=-eq-ok, ok}

-- The fields that belong to a type of transaction.
abbrev pub Fits :
    TransactionType → Option Text → Option Decimal → Option Decimal → Option Decimal → Type 0
Fits buy (some _) (some _) (some _) none = Unit
Fits sell (some _) (some _) (some _) none = Unit
Fits deposit none none none (some _) = Unit
Fits withdrawal none none none (some _) = Unit
Fits _ _ _ _ _ = ⊥

abbrev pub IsAware : DateTime → Type 0
IsAware (aware _) = Unit
IsAware (naive _) = ⊥

-- A transaction with a time zone and the fields of its type.
pub record IsSubmitted (new : NewTransaction) : Type 0 where
  pub zoned : IsAware new.occurred_at
  pub fits : Fits new.transaction_type new.symbol new.quantity new.unit_price new.cash_amount

-- Either issues, or a transaction that was checked, under its identifier.
abbrev pub IsCandidate : TransactionImportCandidate → Type 0
IsCandidate c =
    ((c.new_transaction ≡ none) × (c.issues ≢ []))
    ⊎ ((new : NewTransaction) × (c.new_transaction ≡ some new)
        × (c.issues ≡ [])
        × (c.external_id ≡ some new.external_id)
        × IsSubmitted new)

passed-IsAware : (t : DateTime) → occurred_at_requires_timezone t ≡ none → IsAware t
passed-IsAware (aware _) h = tt
passed-IsAware (naive _) h = absurd (cc)

trade-Fits :
    (symbol : Option Text) (quantity price cash : Option Decimal)
    → (if is_none symbol || is_none quantity || is_none price
        then some trade_incomplete
        else if not (is_none cash)
        then some trade_with_cash_amount
        else none)
      ≡ none
    → Fits buy symbol quantity price cash × Fits sell symbol quantity price cash
trade-Fits (some _) (some _) (some _) none h = (tt, tt)
trade-Fits (some _) (some _) (some _) (some _) h = absurd (cc)
trade-Fits (some _) (some _) none cash h = absurd (cc)
trade-Fits (some _) none price cash h = absurd (cc)
trade-Fits none quantity price cash h = absurd (cc)

cash-Fits :
    (symbol : Option Text) (quantity price cash : Option Decimal)
    → (if is_none cash
        then some cash_amount_required
        else if not (is_none symbol && is_none quantity && is_none price)
        then some cash_with_trade_fields
        else none)
      ≡ none
    → Fits deposit symbol quantity price cash × Fits withdrawal symbol quantity price cash
cash-Fits none none none (some _) h = (tt, tt)
cash-Fits none none (some _) (some _) h = absurd (cc)
cash-Fits none (some _) price (some _) h = absurd (cc)
cash-Fits (some _) quantity price (some _) h = absurd (cc)
cash-Fits symbol quantity price none h = absurd (cc)

check_type-Fits :
    (type : TransactionType) (input : TransactionInput)
    → check_type type input ≡ none
    → Fits type input.symbol input.quantity input.unit_price input.cash_amount
check_type-Fits buy input h =
    (trade-Fits input.symbol input.quantity input.unit_price input.cash_amount h).0
check_type-Fits sell input h =
    (trade-Fits input.symbol input.quantity input.unit_price input.cash_amount h).1
check_type-Fits deposit input h =
    (cash-Fits input.symbol input.quantity input.unit_price input.cash_amount h).0
check_type-Fits withdrawal input h =
    (cash-Fits input.symbol input.quantity input.unit_price input.cash_amount h).1

map-ne_nil : {A B : Type 0} → (f : A → B) (xs : List A) → xs ≢ [] → map f xs ≢ []
map-ne_nil f [] h e = h refl
map-ne_nil f (x ∷ xs) h e = cc

module _ (validate : Pydantic) (laws : IsPydantic validate) where
  candidate_of-IsCandidate :
      (line : ℕ) (external_id : Text) (document : Document) (answer : Validated)
      → validate occurred_at_requires_timezone payload_matches_transaction_type document ≡ answer
      → IsCandidate (candidate_of validate line external_id answer)
  unfolding payload_matches_transaction_type
  candidate_of-IsCandidate line external_id document (refused errors) h = inl (
    refl,
    map-ne_nil validation_issue errors (λ e. laws.names_error _ _ document (h ∙ ap refused e)),
  )
  candidate_of-IsCandidate line external_id document (accepted input) h = inr (
    new_transaction_of input,
    refl,
    refl,
    refl,
    record {
      zoned = passed-IsAware input.occurred_at (laws.passes_field _ _ document input h);
      fits = check_type-Fits input.transaction_type input (laws.passes_model _ _ document input h);
    },
  )

  parse_cells-IsCandidate :
      (line : ℕ) (external_id : Text) (cells : List (Text × Option Text)) (extra : List Text)
      → IsCandidate (parse_cells validate line external_id cells extra)
  parse_cells-IsCandidate line external_id cells (v ∷ extra) = inl (refl, λ e. cc)
  parse_cells-IsCandidate line external_id cells [] =
      candidate_of-IsCandidate line external_id (payload_from allowed_headers cells) _ refl

  pub parse_row-IsCandidate : (line : ℕ) (row : RawRow) → IsCandidate (parse_row validate line row)
  unfolding parse_row
  parse_row-IsCandidate line row = parse_cells-IsCandidate line _ row.cells row.extra

abbrev pub with_row : ℕ × RawRow → Option (List (ℕ × RawRow)) → Option (List (ℕ × RawRow))
with_row row none = none
with_row row (some rows) = some (row ∷ rows)

-- The rows of the dictionary reader with their line numbers, where the document has no error.
abbrev pub dict_rows : List Text → CsvRead → Option ℕ → Option (List (ℕ × RawRow))
dict_rows headers csv_end first = some []
dict_rows headers csv_malformed first = none
dict_rows headers (csv_row line [] rest) first = dict_rows headers rest (some (line_of first line))
dict_rows headers (csv_row line (v ∷ fields) rest) first =
    with_row (line_of first line, raw_row headers (v ∷ fields)) (dict_rows headers rest none)

abbrev pub is_filled : ℕ × RawRow → Bool
is_filled row = not (is_blank_row row.1)

one_more :
    (found n : ℕ)
    → leb max_csv_rows found ≡ false
    → (n ≡ 0) ⊎ (found + 1 + n ≤ max_csv_rows)
    → found + suc n ≤ max_csv_rows
one_more found n room (inl e) = ground arith
one_more found n room (inr h) = ground arith

module _ (validate : Pydantic) (headers : List Text) where
  -- What the loop collects of the rows from some point on.
  pub record IsCollected (read : CsvRead) (first : Option ℕ) (found : ℕ)
      (candidates : List TransactionImportCandidate) : Type 0 where
    pub rows : List (ℕ × RawRow)
    pub readable : dict_rows headers read first ≡ some rows
    pub in_step : candidates ≡ map (λ row. parse_row validate row.0 row.1) (keep is_filled rows)
    pub bounded : (length candidates ≡ 0) ⊎ (found + length candidates ≤ max_csv_rows)

  pub parse_rows-IsCollected :
      (read : CsvRead) (first : Option ℕ) (found : ℕ) (candidates : List TransactionImportCandidate)
      → parse_rows validate headers read first found ≡ ok candidates
      → IsCollected read first found candidates
  unfolding parse_rows
  parse_rows-IsCollected csv_end first found [] h = record {
    rows = [];
    readable = refl;
    in_step = refl;
    bounded = inl refl;
  }
  parse_rows-IsCollected csv_end first found (c ∷ candidates) h = absurd (cc)
  parse_rows-IsCollected csv_malformed first found candidates h = absurd (cc)
  parse_rows-IsCollected (csv_row line [] rest) first found candidates h =
      let more = parse_rows-IsCollected rest (some (line_of first line)) found candidates h in
      record {
        rows = more.rows;
        readable = more.readable;
        in_step = more.in_step;
        bounded = more.bounded;
      }
  parse_rows-IsCollected (csv_row line (v ∷ fields) rest) first found candidates h =
      let row = raw_row headers (v ∷ fields) in
      elim (Bool-cases (is_blank_row row)) [
        | inl blank ↦
            let more =
              parse_rows-IsCollected rest none found candidates (rw (parse_rows, blank) at h) in
            record {
              rows = (line_of first line, row) ∷ more.rows;
              readable = ap (with_row (line_of first line, row)) more.readable;
              in_step = rw blank more.in_step;
              bounded = more.bounded;
            }
        | inr filled ↦
            let (_, below, h1) =
              >>=-eq-ok (raise_if (leb max_csv_rows found) import_format) _
                (rw (parse_rows, filled) at h) in
            let (others, collected, made) =
              >>=-eq-ok (parse_rows validate headers rest none (found + 1)) _ h1 in
            let more = parse_rows-IsCollected rest none (found + 1) others collected in
            let same : parse_row validate (line_of first line) row ∷ others ≡ candidates =
              ground arith in
            let step = more.in_step in
            let room : leb max_csv_rows found ≡ false =
              raise_if-ok (leb max_csv_rows found) import_format below in
            rw (← same) (record {
              rows = (line_of first line, row) ∷ more.rows;
              readable = ap (with_row (line_of first line, row)) more.readable;
              in_step =
                  rw filled (ap (λ rest. parse_row validate (line_of first line) row ∷ rest) step);
              bounded = inr (one_more found (length others) room more.bounded);
            })
      ]
