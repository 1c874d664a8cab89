-- ===== src/Examples/Imports.antt =====
-- A CSV document with one transaction and a blank row, and the theorems of the reader at it.
use portfolio_analytics_api.Examples.Data.{whole, day}
use portfolio_analytics_api.Domain.Models.{deposit}
use portfolio_analytics_api.Api.Csv.Headers.{validate_headers-IsHeader, IsHeader}
use portfolio_analytics_api.Services.Import.{TransactionImportCandidate}
use portfolio_analytics_api.Api.Csv.Documents.{
  parse_transaction_csv-IsFormatError, parse_csv_rows-IsImport, IsFormatError, IsImport,
}
use portfolio_analytics_api.Api.Csv.{
  parse_rows, parse_row, csv_end, get_cell, string_value, csv_malformed, csv_row,
  parse_transaction_csv, validate_headers, parse_csv_rows, CsvRead,
}
use portfolio_analytics_api.Api.Schemas.{
  payload_matches_transaction_type, new_transaction_of, refused, accepted, Validated, InputFault,
  TransactionInput, IsPydantic, Pydantic, Document,
}
use portfolio_analytics_api.Common.Text.{is_blank, text, strip, Text, strip_left, is_space}
use portfolio_analytics_api.Common.{
  ◌⊎◌, ◌∙◌, map, sym, ◌≢◌, ◌≡◌, ap, List, Option, arith, ◌∷◌, [], some, none, refl,
}
use portfolio_analytics_api.Errors.{import_format, csv_error, ok, err}

import_runs : Unit {0}
unfolding is_space strip_left strip is_blank validate_headers payload_matches_transaction_type
    parse_row parse_rows parse_csv_rows parse_transaction_csv
import_runs = tt

-- A pydantic that reads the identifier only, of a deposit.
abbrev pub input_of : Document → TransactionInput
input_of document = record {
  external_id = string_value (get_cell (text "external_id") document);
  transaction_type = deposit;
  occurred_at = day 10;
  symbol = none;
  quantity = none;
  unit_price = none;
  cash_amount = some (whole 1000);
  fees = whole 0;
}

abbrev pub judge : Option InputFault → Option InputFault → TransactionInput → Validated
judge none none input = accepted input
judge none (some fault) input = refused (record { loc = []; msg = none } ∷ [])
judge (some fault) after input = refused (record { loc = []; msg = none } ∷ [])

abbrev pub plain_pydantic : Pydantic
plain_pydantic at_time after document =
    judge (at_time (input_of document).occurred_at) (after (input_of document)) (input_of document)

judge-accepted :
    (a b : Option InputFault) (input other : TransactionInput)
    → judge a b input ≡ accepted other
    → (a ≡ none) × (b ≡ none) × (input ≡ other)
judge-accepted none none input other h = (refl, refl, ground arith)
judge-accepted none (some _) input other h = absurd (cc)
judge-accepted (some _) b input other h = absurd (cc)

judge-named : (a b : Option InputFault) (input : TransactionInput) → judge a b input ≢ refused []
judge-named none none input e = cc
judge-named none (some _) input e = ground arith
judge-named (some _) b input e = ground arith

plain_pydantic-IsPydantic : IsPydantic plain_pydantic
plain_pydantic-IsPydantic = record {
  passes_field = λ at_time after document input h.
      let (p, _, e) = judge-accepted _ _ (input_of document) input h in
      ap (λ (i : TransactionInput). at_time i.occurred_at) (sym e) ∙ p;
  passes_model = λ at_time after document input h.
      let (_, q, e) = judge-accepted _ _ (input_of document) input h in ap after (sym e) ∙ q;
  names_error = λ at_time after document. judge-named _ _ (input_of document);
}

abbrev columns : List Text
columns =
    text " external_id" ∷ text "transaction_type" ∷ text "occurred_at" ∷ text "cash_amount" ∷ []

abbrev reading : CsvRead
reading = csv_row 1 columns (
    csv_row 2 (text "d1" ∷ text "DEPOSIT" ∷ text "1970-01-11" ∷ text "1000" ∷ [])
      (csv_row 3 (text " " ∷ []) csv_end))

abbrev imported : List TransactionImportCandidate
imported =
    record {
      row_number = 2;
      external_id = some (text "d1");
      new_transaction =
          some (new_transaction_of (input_of ((text "external_id", some (text "d1")) ∷ [])));
      issues = [];
    }
    ∷ []

parse_csv_rows-run : parse_csv_rows plain_pydantic reading ≡ ok imported
unfolding import_runs
parse_csv_rows-run = refl

parse_csv_rows-IsImport_example : IsImport plain_pydantic reading imported
parse_csv_rows-IsImport_example =
    parse_csv_rows-IsImport plain_pydantic plain_pydantic-IsPydantic reading imported
      parse_csv_rows-run

validate_headers-IsHeader_example :
    ((validate_headers (some columns) ≡ ok (map strip columns)) × IsHeader (map strip columns))
    ⊎ ((validate_headers (some columns) ≡ err import_format) × ¬ (IsHeader (map strip columns)))
validate_headers-IsHeader_example = validate_headers-IsHeader columns

-- A reader that fails at the header row, as at a quote that is not closed.
broken_reader-run :
    parse_transaction_csv plain_pydantic (λ s. some s) (λ _. csv_malformed) (34 ∷ [])
    ≡ err csv_error
unfolding import_runs
broken_reader-run = refl

parse_transaction_csv-IsFormatError_example :
    IsFormatError (λ s. some s) (λ _. csv_malformed) (34 ∷ []) csv_error
parse_transaction_csv-IsFormatError_example =
    parse_transaction_csv-IsFormatError plain_pydantic (λ s. some s) (λ _. csv_malformed) (34 ∷ [])
      csv_error broken_reader-run
