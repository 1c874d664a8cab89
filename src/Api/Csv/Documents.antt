-- ===== src/Api/Csv/Documents.antt =====
-- Whole CSV documents: what an accepted one gives, and which exceptions a refused one raises.
use portfolio_analytics_api.Api.Csv.Rows.{
  parse_rows-IsCollected, parse_row-IsCandidate, is_filled, IsCollected, dict_rows, IsCandidate,
}
use portfolio_analytics_api.Api.Csv.Headers.{validate_headers-IsHeader, IsHeader}
use portfolio_analytics_api.Common.Text.{strip, Text}
use portfolio_analytics_api.Services.Import.{TransactionImportCandidate}
use portfolio_analytics_api.Api.Csv.{
  max_csv_bytes, raw_row, is_blank_row, decoded, parse_transaction_csv, csv_end, parse_row,
  csv_malformed, parse_rows, max_csv_rows, csv_row, validate_headers, some_candidates, RawRow,
  CsvRead, parse_csv_rows,
}
use portfolio_analytics_api.Api.Schemas.{IsPydantic, Pydantic}
use portfolio_analytics_api.Common.{
  ltb, ◌==◌, any, leb, Bool-cases, keep, length, ◌+◌, map, ◌≤◌, All, ◌⊎◌, Option, ◌≡◌, ℕ, List,
  arith, inr, inl, ◌∷◌, [], some, none, refl,
}
use portfolio_analytics_api.Errors.{
  RaisesOnly-err, RaisesOnly-raise_if->>, ◌>>=◌, ◌>>◌, raise_if, RaisesOnly->>=, RaisesOnly,
  csv_error, >>=-eq-ok, import_format, Error, ok, err,
}

-- What a document was read as.
pub record IsImport (validate : Pydantic) (read : CsvRead)
    (candidates : List TransactionImportCandidate) : Type 0 where
  pub line : ℕ
  pub names : List Text
  pub rest : CsvRead
  pub rows : List (ℕ × RawRow)
  pub header_first : read ≡ csv_row line names rest
  pub header : IsHeader (map strip names)
  pub readable : dict_rows (map strip names) rest none ≡ some rows
  pub in_step : candidates ≡ map (λ row. parse_row validate row.0 row.1) (keep is_filled rows)
  pub not_empty : 1 ≤ length candidates
  pub bounded : length candidates ≤ max_csv_rows
  pub sound : All IsCandidate candidates

parsed-IsCandidate :
    (validate : Pydantic) (laws : IsPydantic validate) (rows : List (ℕ × RawRow))
    → All IsCandidate (map (λ row. parse_row validate row.0 row.1) rows)
parsed-IsCandidate validate laws [] = tt
parsed-IsCandidate validate laws (row ∷ rows) =
    (parse_row-IsCandidate validate laws row.0 row.1, parsed-IsCandidate validate laws rows)

some_candidates-ok :
    (validate : Pydantic) (found candidates : List TransactionImportCandidate)
    → some_candidates validate found ≡ ok candidates
    → (found ≡ candidates) × (1 ≤ length candidates)
some_candidates-ok validate [] candidates h = absurd (cc)
some_candidates-ok validate (c ∷ found) candidates h =
    let same : c ∷ found ≡ candidates = ground arith in rw (← same) (refl, ground arith)

accepted_names :
    (names headers : List Text)
    → validate_headers (some names) ≡ ok headers
    → (headers ≡ map strip names) × IsHeader (map strip names)
accepted_names names headers h = elim (validate_headers-IsHeader names) [
  | inl (e, good) ↦ (ground arith, good)
  | inr (e, bad) ↦ absurd (cc)
]

bounded_rows : (n : ℕ) → (n ≡ 0) ⊎ (0 + n ≤ max_csv_rows) → n ≤ max_csv_rows
bounded_rows n (inl e) = ground arith
bounded_rows n (inr h) = ground arith

-- The reading of a document that has a header row.
parse_csv_rows-header :
    (validate : Pydantic) (laws : IsPydantic validate) (line : ℕ) (names : List Text)
    (rest : CsvRead) (candidates : List TransactionImportCandidate)
    → parse_csv_rows validate (csv_row line names rest) ≡ ok candidates
    → IsImport validate (csv_row line names rest) candidates
unfolding parse_csv_rows
parse_csv_rows-header validate laws line names rest candidates h =
    let (headers, accepted, h1) = >>=-eq-ok (validate_headers (some names)) _ h in
    let (found, collected, h2) = >>=-eq-ok (parse_rows validate headers rest none 0) _ h1 in
    let (same_headers, header) = accepted_names names headers accepted in
    let (same, not_empty) = some_candidates-ok validate found candidates h2 in
    let parsed : IsCollected validate (map strip names) rest none 0 candidates =
      rw (← same_headers, ← same)
        (parse_rows-IsCollected validate headers rest none 0 found collected) in
    record {
      line = line;
      names = names;
      rest = rest;
      rows = parsed.rows;
      header_first = refl;
      header = header;
      readable = parsed.readable;
      in_step = parsed.in_step;
      not_empty = not_empty;
      bounded = bounded_rows (length candidates) parsed.bounded;
      sound = rw (parsed.in_step) (parsed-IsCandidate validate laws (keep is_filled parsed.rows));
    }

-- A document that is accepted begins with a header, has no syntax error, and gives one candidate
-- for each of its rows that is not blank, in order: at least one and at most 500. With a pydantic
-- that applies the validators, each candidate has issues and no transaction, or no issues and a
-- transaction under its identifier, with a time zone and just the fields of its type.
pub parse_csv_rows-IsImport :
    (validate : Pydantic) (laws : IsPydantic validate) (read : CsvRead)
    (candidates : List TransactionImportCandidate)
    → parse_csv_rows validate read ≡ ok candidates
    → IsImport validate read candidates
unfolding parse_csv_rows
parse_csv_rows-IsImport validate laws csv_end candidates h = absurd (cc)
parse_csv_rows-IsImport validate laws csv_malformed candidates h = absurd (cc)
parse_csv_rows-IsImport validate laws (csv_row line names rest) candidates h =
    parse_csv_rows-header validate laws line names rest candidates h

-- A format error, or the reader's own error, and then about the header row.
abbrev pub IsFormatError : (List ℕ → Option Text) → (Text → CsvRead) → List ℕ → Error → Type 0
IsFormatError decode csv_reader csv_data e =
    (e ≡ import_format)
    ⊎ ((e ≡ csv_error)
        × ((document : Text) × (decode csv_data ≡ some document)
            × (csv_reader document ≡ csv_malformed)))

module _ (validate : Pydantic) (P : Error → Type 0) (format : P import_format) where
  validate_headers-RaisesOnly :
      (fieldnames : Option (List Text)) → RaisesOnly P (validate_headers fieldnames)
  unfolding validate_headers
  validate_headers-RaisesOnly none = format
  validate_headers-RaisesOnly (some names) = elim (validate_headers-IsHeader names) [
    | inl (e, _) ↦ rw e tt
    | inr (e, _) ↦ rw e format
  ]

  parse_rows-RaisesOnly :
      (headers : List Text) (read : CsvRead) (first : Option ℕ) (found : ℕ)
      → RaisesOnly P (parse_rows validate headers read first found)
  unfolding parse_rows
  parse_rows-RaisesOnly headers csv_end first found = tt
  parse_rows-RaisesOnly headers csv_malformed first found = format
  parse_rows-RaisesOnly headers (csv_row line [] rest) first found =
      parse_rows-RaisesOnly headers rest _ found
  parse_rows-RaisesOnly headers (csv_row line (v ∷ fields) rest) first found =
      elim (Bool-cases (is_blank_row (raw_row headers (v ∷ fields)))) [
        | inl blank ↦ rw (parse_rows, blank) (parse_rows-RaisesOnly headers rest none found)
        | inr filled ↦
            rw (parse_rows, filled)
              (RaisesOnly-raise_if->> P (leb max_csv_rows found) import_format _ format (
                RaisesOnly->>= P (parse_rows validate headers rest none (found + 1)) _
                  (parse_rows-RaisesOnly headers rest none (found + 1)) (λ _. tt)))
      ]

  some_candidates-RaisesOnly :
      (found : List TransactionImportCandidate) → RaisesOnly P (some_candidates validate found)
  some_candidates-RaisesOnly [] = format
  some_candidates-RaisesOnly (c ∷ found) = tt

  read_rows-RaisesOnly :
      (fieldnames : Option (List Text)) (rest : CsvRead)
      → RaisesOnly P (
          validate_headers fieldnames >>= λ headers.
          parse_rows validate headers rest none 0 >>= some_candidates validate)
  read_rows-RaisesOnly fieldnames rest =
      RaisesOnly->>= P (validate_headers fieldnames) _ (validate_headers-RaisesOnly fieldnames)
        (λ headers.
          RaisesOnly->>= P (parse_rows validate headers rest none 0) _
            (parse_rows-RaisesOnly headers rest none 0) some_candidates-RaisesOnly)

  parse_csv_rows-RaisesOnly :
      (read : CsvRead)
      → (read ≡ csv_malformed → P csv_error)
      → RaisesOnly P (parse_csv_rows validate read)
  unfolding parse_csv_rows
  parse_csv_rows-RaisesOnly csv_end h = read_rows-RaisesOnly none csv_end
  parse_csv_rows-RaisesOnly csv_malformed h = h refl
  parse_csv_rows-RaisesOnly (csv_row line names rest) h = read_rows-RaisesOnly (some names) rest

parse_decoded-RaisesOnly :
    (validate : Pydantic) (decode : List ℕ → Option Text) (csv_reader : Text → CsvRead)
    (csv_data : List ℕ) (o : Option Text)
    → decode csv_data ≡ o
    → RaisesOnly (IsFormatError decode csv_reader csv_data) (
        decoded validate o >>= λ document.
        raise_if (any (λ c. c == 0) document) import_format
        >> parse_csv_rows validate (csv_reader document))
parse_decoded-RaisesOnly validate decode csv_reader csv_data none h = inl refl
parse_decoded-RaisesOnly validate decode csv_reader csv_data (some document) h =
    let P = IsFormatError decode csv_reader csv_data in
    RaisesOnly-raise_if->> P (any (λ c. c == 0) document) import_format _ (inl refl) (
      parse_csv_rows-RaisesOnly validate P (inl refl) (csv_reader document)
        (λ bad. inr (refl, (document, h, bad))))

-- Whatever the bytes, the decoder, the reader and pydantic, a refusal is a
-- `TransactionImportFormatError`; or it is the reader's `csv.Error`, and then the reader failed at
-- the header row.
pub parse_transaction_csv-IsFormatError :
    (validate : Pydantic) (decode : List ℕ → Option Text) (csv_reader : Text → CsvRead)
    (csv_data : List ℕ) (e : Error)
    → parse_transaction_csv validate decode csv_reader csv_data ≡ err e
    → IsFormatError decode csv_reader csv_data e
unfolding parse_transaction_csv
parse_transaction_csv-IsFormatError validate decode csv_reader csv_data e h =
    let P = IsFormatError decode csv_reader csv_data in
    let format : P import_format = inl refl in
    RaisesOnly-err P (parse_transaction_csv validate decode csv_reader csv_data) e
      (RaisesOnly-raise_if->> P (ltb max_csv_bytes (length csv_data)) import_format _ format
        (parse_decoded-RaisesOnly validate decode csv_reader csv_data (decode csv_data) refl))
      h
