-- ===== src/Api/Csv.antt =====
-- api/csv_import.py over the rows that `csv.reader` gives. The decoder, the reader and pydantic are
-- arguments; `csv.DictReader` is modelled with them.
use portfolio_analytics_api.Api.Schemas.{
  new_transaction_of, accepted, refused, payload_matches_transaction_type,
  occurred_at_requires_timezone, Validated, Pydantic, Document, FieldError,
}
use portfolio_analytics_api.Common.Text.{is_empty, text_eq, strip, is_blank, text, Text}
use portfolio_analytics_api.Common.{
  ◌==◌, ◌+◌, ltb, leb, map, length, if◌then◌else◌, ◌&&◌, drop, not, ◌||◌, any, ◌++◌, Option, Bool,
  List, ℕ, ◌∷◌, [], some, none, false, true,
}
use portfolio_analytics_api.Errors.{
  raise_if, csv_error, import_format, Result, ok, err, ◌>>=◌, ◌>>◌,
}
use portfolio_analytics_api.Services.Import.{
  TransactionImportIssue, TransactionImportCandidate, literal,
}
pub mod Headers
pub mod Rows
pub mod Documents

abbrev pub max_csv_bytes : ℕ
max_csv_bytes = 1_000_000

abbrev pub max_csv_rows : ℕ
max_csv_rows = 500

abbrev pub required_headers : List Text
required_headers = text "external_id" ∷ text "transaction_type" ∷ text "occurred_at" ∷ []

abbrev pub optional_headers : List Text
optional_headers =
    text "symbol" ∷ text "quantity" ∷ text "unit_price" ∷ text "cash_amount" ∷ text "fees" ∷ []

abbrev pub allowed_headers : List Text
allowed_headers = required_headers ++ optional_headers

-- The rows of `csv.reader` with its line numbers, up to the end or to a `csv.Error`.
pub data CsvRead : Type 0 where
  csv_end csv_malformed : CsvRead
  csv_row : ℕ → List Text → CsvRead → CsvRead

abbrev pub is_nil {ℓ} : {A : Type ℓ} → List A → Bool
is_nil [] = true
is_nil (_ ∷ _) = false

-- `value in set`
abbrev pub elem : Text → List Text → Bool
elem s names = any (λ t. text_eq t s) names

-- `len(names) != len(set(names))`
abbrev pub has_duplicates : List Text → Bool
has_duplicates [] = false
has_duplicates (s ∷ names) = elem s names || has_duplicates names

abbrev pub all_of {ℓ} : {A : Type ℓ} → (A → Bool) → List A → Bool
all_of test xs = not (any (λ x. not (test x)) xs)

-- `_validate_headers`; the header row may be missing.
unfoldable pub validate_headers : Option (List Text) → Result (List Text)
validate_headers none = err import_format
validate_headers (some fieldnames) = do
  raise_if (is_nil fieldnames) import_format
  let headers = map strip fieldnames
  raise_if (any is_empty headers) import_format
  raise_if (has_duplicates headers) import_format
  raise_if (not (all_of (λ name. elem name headers) required_headers)) import_format
  raise_if (not (all_of (λ name. elem name allowed_headers) headers)) import_format
  ok headers

-- `next(reader)` for the header row.
abbrev pub read_header : CsvRead → Result (Option (List Text) × CsvRead)
read_header csv_end = ok (none, csv_end)
read_header csv_malformed = err csv_error
read_header (csv_row line fields rest) = ok (some fields, rest)

-- A row of `csv.DictReader`: the values of the headers, `none` where the row is short, and what is
-- left under the key `None` where it is long.
pub record RawRow : Type 0 where
  pub cells : List (Text × Option Text)
  pub extra : List Text

abbrev pub zip_cells : List Text → List Text → List (Text × Option Text)
zip_cells [] fields = []
zip_cells (h ∷ headers) [] = (h, none) ∷ zip_cells headers []
zip_cells (h ∷ headers) (v ∷ fields) = (h, some v) ∷ zip_cells headers fields

abbrev pub raw_row : List Text → List Text → RawRow
raw_row headers fields = record {
  cells = zip_cells headers fields;
  extra = drop (length headers) fields;
}

abbrev pub is_blank_value : Option Text → Bool
is_blank_value none = true
is_blank_value (some v) = is_blank v

-- `_is_blank_row`
abbrev pub is_blank_row : RawRow → Bool
is_blank_row row = all_of (λ cell. is_blank_value cell.1) row.cells && all_of is_blank row.extra

-- `_string_value`
abbrev pub string_value : Option Text → Text
string_value none = []
string_value (some v) = strip v

abbrev pub cell : Text → List (Text × Option Text) → Option (Option Text)
cell name [] = none
cell name ((h, v) ∷ cells) = if text_eq h name then some v else cell name cells

-- `raw_row.get(name)`
abbrev pub get_cell : Text → List (Text × Option Text) → Option Text
get_cell name cells = elim (cell name cells) [ none ↦ none | some v ↦ v ]

-- `value if value else None`
abbrev pub or_none : Text → Option Text
or_none [] = none
or_none (c ∷ s) = some (c ∷ s)

abbrev pub keep_field : Text → Text → Document → Document
keep_field name value rest =
    if text_eq name (text "fees") && is_empty value then rest else (name, or_none value) ∷ rest

-- The payload: the allowed fields that the row has.
abbrev pub payload_from : List Text → List (Text × Option Text) → Document
payload_from [] cells = []
payload_from (name ∷ names) cells = elim (cell name cells) [
  | none ↦ payload_from names cells
  | some v ↦ keep_field name (string_value v) (payload_from names cells)
]

abbrev pub last_of : List Text → Option Text
last_of [] = none
last_of (s ∷ []) = some s
last_of (s ∷ t ∷ names) = last_of (t ∷ names)

abbrev pub msg_or : Option Text → Text
msg_or none = text "row validation failed"
msg_or (some msg) = msg

abbrev pub code_for : Option Text → Text
code_for none = text "invalid_row"
code_for (some _) = text "invalid_field"

-- `_validation_issue`
abbrev pub validation_issue : FieldError → TransactionImportIssue
validation_issue error = record {
  code = code_for (last_of error.loc);
  message = literal (msg_or error.msg);
  field = last_of error.loc;
}

abbrev pub extra_columns_issue : TransactionImportIssue
extra_columns_issue = record {
  code = text "extra_columns";
  message = literal (text "row contains more values than the header");
  field = none;
}

abbrev pub line_of : Option ℕ → ℕ → ℕ
line_of none line = line
line_of (some first) line = first

module _ (validate : Pydantic) where
  -- The end of `_parse_row`.
  abbrev pub candidate_of : ℕ → Text → Validated → TransactionImportCandidate
  candidate_of line external_id (refused errors) = record {
    row_number = line;
    external_id = or_none external_id;
    new_transaction = none;
    issues = map validation_issue errors;
  }
  candidate_of line external_id (accepted input) = record {
    row_number = line;
    external_id = some input.external_id;
    new_transaction = some (new_transaction_of input);
    issues = [];
  }

  abbrev pub parse_cells :
      ℕ → Text → List (Text × Option Text) → List Text → TransactionImportCandidate
  parse_cells line external_id cells (_ ∷ _) = record {
    row_number = line;
    external_id = or_none external_id;
    new_transaction = none;
    issues = extra_columns_issue ∷ [];
  }
  parse_cells line external_id cells [] = candidate_of line external_id (
      validate occurred_at_requires_timezone payload_matches_transaction_type
        (payload_from allowed_headers cells))

  -- `_parse_row`
  unfoldable pub parse_row : ℕ → RawRow → TransactionImportCandidate
  unfolding payload_matches_transaction_type
  parse_row line row =
      parse_cells line (string_value (get_cell (text "external_id") row.cells)) row.cells row.extra

  module _ (headers : List Text) where
    -- The loop. `DictReader` passes over rows without fields, and its line number stays at the first
    -- of them; `found` is the number of candidates so far.
    unfoldable pub parse_rows : CsvRead → Option ℕ → ℕ → Result (List TransactionImportCandidate)
    unfolding parse_row
    parse_rows csv_end first found = ok []
    parse_rows csv_malformed first found = err import_format
    parse_rows (csv_row line [] rest) first found =
        parse_rows rest (some (line_of first line)) found
    parse_rows (csv_row line (v ∷ fields) rest) first found =
        let row = raw_row headers (v ∷ fields) in
        elim (is_blank_row row) [
          | true ↦ parse_rows rest none found
          | false ↦ do
            raise_if (leb max_csv_rows found) import_format
            candidates ← parse_rows rest none (found + 1)
            ok (parse_row (line_of first line) row ∷ candidates)
        ]

  abbrev pub some_candidates :
      List TransactionImportCandidate → Result (List TransactionImportCandidate)
  some_candidates [] = err import_format
  some_candidates (c ∷ candidates) = ok (c ∷ candidates)

  -- `parse_transaction_csv` from the text on.
  unfoldable pub parse_csv_rows : CsvRead → Result (List TransactionImportCandidate)
  unfolding validate_headers parse_rows
  parse_csv_rows read = do
    (fieldnames, rest) ← read_header read
    headers ← validate_headers fieldnames
    candidates ← parse_rows headers rest none 0
    some_candidates candidates

  abbrev pub decoded : Option Text → Result Text
  decoded none = err import_format
  decoded (some s) = ok s

  -- `parse_transaction_csv` of some bytes; `decode` is UTF-8 with an optional mark at the front.
  unfoldable pub parse_transaction_csv :
      (List ℕ → Option Text) → (Text → CsvRead) → List ℕ → Result (List TransactionImportCandidate)
  unfolding parse_csv_rows
  parse_transaction_csv decode csv_reader csv_data = do
    raise_if (ltb max_csv_bytes (length csv_data)) import_format
    document ← decoded (decode csv_data)
    raise_if (any (λ c. c == 0) document) import_format
    parse_csv_rows (csv_reader document)
