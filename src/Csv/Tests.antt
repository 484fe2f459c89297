-- ===== src/Csv/Tests.antt =====
-- Runs of the CSV reader, and its theorems at concrete inputs.
use swift_chain_backend.Common.{
  List, [], ◌∷◌, Text, codes, ◌≡◌, refl, trim, trim_start, is_space, put, text_eq,
}
use swift_chain_backend.Csv.{
  CsvParseResult, ok, thrown, duplicate_columns, too_many_rows, unterminated_quote, tokenize,
  parse_csv,
}
use swift_chain_backend.Csv.RoundTrip.{write_records, numbered, tokenize-write_records}
use swift_chain_backend.Csv.Table.{IsTable, parse_csv-IsTable}

reader : Unit {0}
unfolding parse_csv tokenize trim trim_start is_space put text_eq
reader = tt

abbrev table : List (Text × List Text)
table = (codes "name", codes "note" ∷ []) ∷ (codes "a,b", codes "say \"hi\"" ∷ []) ∷ []

tokenize-write_records_example : tokenize (write_records table) ≡ ok (numbered 1 table)
tokenize-write_records_example = tokenize-write_records table

abbrev keep_case : Text → Text
keep_case s = s

abbrev sample : Text
sample = codes "id , note\n7,\" x\"\n"

abbrev sample_result : CsvParseResult
sample_result = record {
  headers = codes "id" ∷ codes "note" ∷ [];
  rows =
      record { line_number = 2; values = (codes "id", codes "7") ∷ (codes "note", codes "x") ∷ [] }
      ∷ [];
}

parsed : parse_csv keep_case sample 10 ≡ ok sample_result
unfolding reader
parsed = refl

parse_csv-IsTable_example : IsTable 10 sample_result
parse_csv-IsTable_example = parse_csv-IsTable keep_case sample 10 sample_result parsed

duplicate : parse_csv keep_case (codes "a,a\n1,2") 10 ≡ thrown (duplicate_columns (codes "a" ∷ []))
unfolding reader
duplicate = refl

too_many : parse_csv keep_case (codes "a\n1\n2\n") 1 ≡ thrown (too_many_rows 2 1)
unfolding reader
too_many = refl

unterminated : parse_csv keep_case (codes "a\n\"1") 1 ≡ thrown unterminated_quote
unfolding reader
unterminated = refl
