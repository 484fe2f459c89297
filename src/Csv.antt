-- ===== src/Csv.antt =====
-- src/utils/csvParser.ts: the CSV reader of the bulk import. A character is a UTF-16 code unit.
pub mod RoundTrip
pub mod Table
mod Tests
use swift_chain_backend.Common.{
  ℕ, suc, ◌+◌, Bool, true, false, not, ◌&&◌, ◌||◌, Option, none, some, List, [], ◌∷◌, ◌++◌, map,
  ltb, ◌==◌, if◌then◌else◌, length, any, filter, Text, text_eq, trim, is_empty, is_space, Dict, put,
}

abbrev pub quote : ℕ
quote = b'"'

abbrev pub comma : ℕ
comma = b','

abbrev pub carriage_return : ℕ
carriage_return = 13

abbrev pub newline : ℕ
newline = 10

abbrev pub byte_order_mark : ℕ
byte_order_mark = 0xFEFF

pub record Record : Type 0 where
  pub line_number : ℕ
  pub fields : List Text

-- The local variables of `tokenize`.
pub record Lexer : Type 0 where
  pub records : List Record
  pub field : Text
  pub fields : List Text
  pub in_quotes : Bool
  pub line : ℕ
  pub record_start_line : ℕ
  pub record_has_content : Bool

pub data CsvParseError : Type 0 where
  unterminated_quote empty_file empty_column no_data_rows : CsvParseError
  duplicate_columns : List Text → CsvParseError
  too_many_rows : (rows max_rows : ℕ) → CsvParseError

pub data Parsed {ℓ} (A : Type ℓ) : Type ℓ where
  ok : A → Parsed A
  thrown : CsvParseError → Parsed A

-- What follows a step that may throw.
abbrev pub and_then {ℓ κ} : {A : Type ℓ} {B : Type κ} → (A → Parsed B) → Parsed A → Parsed B
and_then next (ok a) = next a
and_then next (thrown e) = thrown e

abbrev pub start : Lexer
start = record {
  records = [];
  field = [];
  fields = [];
  in_quotes = false;
  line = 1;
  record_start_line = 1;
  record_has_content = false;
}

push : ℕ → Lexer → Lexer
push c s = record s { field = s.field ++ c ∷ [] }

end_field : Lexer → Lexer
end_field s = record s { fields = s.fields ++ s.field ∷ []; field = [] }

-- A record with no content is a blank line.
emit_record : Lexer → List Record
emit_record s =
    if s.record_has_content
    then s.records ++ record { line_number = s.record_start_line; fields = s.fields } ∷ []
    else s.records

end_record : Lexer → Lexer
unfolding end_field emit_record
end_record s =
    let s' = end_field s in
    record s' {
      records = emit_record s';
      fields = [];
      record_has_content = false;
      record_start_line = s'.line;
    }

-- A character inside quotes; a doubled quote stands for one.
quoted_char : ℕ → Bool → Lexer → Lexer
unfolding push
quoted_char c doubled s =
    if c == quote
    then if doubled then push quote s else record s { in_quotes = false }
    else if c == newline
    then push c (record s { line = s.line + 1 })
    else push c s

-- `switch (char)`
plain_char : ℕ → Lexer → Lexer
unfolding push end_field end_record
plain_char c s =
    if c == quote
    then record s { in_quotes = true; record_has_content = true }
    else if c == comma
    then end_field (record s { record_has_content = true })
    else if c == carriage_return
    then s
    else if c == newline
    then (let s' = end_record (record s { line = s.line + 1 }) in
        record s' { record_start_line = s'.line })
    else push c (record s { record_has_content = s.record_has_content || not (is_space c) })

abbrev next_is_quote : Text → Bool
next_is_quote [] = false
next_is_quote (c ∷ s) = c == quote

-- One round of the loop, at the character `c` with `rest` after it.
read_char : ℕ → Text → Lexer → Lexer
unfolding quoted_char plain_char
read_char c rest s = if s.in_quotes then quoted_char c (next_is_quote rest) s else plain_char c s

-- The second quote of a doubled one is passed over.
skips : ℕ → Text → Lexer → Bool
skips c rest s = s.in_quotes && c == quote && next_is_quote rest

-- The loop; `skip` says that the last round has moved the index on by one more.
scan : Bool → Text → Lexer → Lexer
unfolding read_char skips
scan skip [] s = s
scan skip (c ∷ rest) s =
    scan (not skip && skips c rest s) rest (if skip then s else read_char c rest s)

abbrev pub is_nil {ℓ} : {A : Type ℓ} → List A → Bool
is_nil [] = true
is_nil (x ∷ xs) = false

finish : Lexer → Parsed (List Record)
unfolding end_record
finish s =
    if s.in_quotes
    then thrown unterminated_quote
    else if s.record_has_content || not (is_nil s.fields)
    then ok (end_record s).records
    else ok s.records

unfoldable pub tokenize : Text → Parsed (List Record)
unfolding scan finish
tokenize input = finish (scan false input start)

pub record CsvRow : Type 0 where
  pub line_number : ℕ
  pub values : Dict Text

pub record CsvParseResult : Type 0 where
  pub headers : List Text
  pub rows : List CsvRow

contains : List Text → Text → Bool
contains [] x = false
contains (y ∷ ys) x = text_eq y x || contains ys x

-- The headers that stand in the list a second time.
repeated : List Text → List Text → List Text
unfolding contains
repeated seen [] = []
repeated seen (h ∷ hs) =
    let rest = repeated (h ∷ seen) hs in if contains seen h then h ∷ rest else rest

-- `[...new Set(xs)]`
unique : List Text → List Text → List Text
unfolding contains
unique seen [] = []
unique seen (x ∷ xs) = let rest = unique (x ∷ seen) xs in if contains seen x then rest else x ∷ rest

head_or_empty : List Text → Text
head_or_empty [] = []
head_or_empty (x ∷ xs) = x

tail_of : List Text → List Text
tail_of [] = []
tail_of (x ∷ xs) = xs

-- `values[header] = (record.fields[index] ?? '').trim()` for each header
cells : List Text → List Text → Dict Text → Dict Text
unfolding head_or_empty tail_of
cells [] fields values = values
cells (h ∷ hs) fields values =
    cells hs (tail_of fields) (put h (trim (head_or_empty fields)) values)

to_row : List Text → Record → CsvRow
unfolding cells
to_row headers r = record { line_number = r.line_number; values = cells headers r.fields [] }

strip_mark : Text → Text
strip_mark [] = []
strip_mark (c ∷ s) = if c == byte_order_mark then s else c ∷ s

-- `String.prototype.toLowerCase` is an argument: the Unicode tables are not in the source.
normalise_header : (Text → Text) → Text → Text
normalise_header lower header = lower (trim header)

check_headers : List Text → Parsed (List Text)
unfolding repeated unique
check_headers headers =
    if any is_empty headers
    then thrown empty_column
    else if is_nil (repeated [] headers)
    then ok headers
    else thrown (duplicate_columns (unique [] (repeated [] headers)))

build_rows : ℕ → List Text → List Record → Parsed CsvParseResult
unfolding to_row
build_rows max_rows headers records =
    if is_nil records
    then thrown no_data_rows
    else if ltb max_rows (length records)
    then thrown (too_many_rows (length records) max_rows)
    else ok (record { headers = headers; rows = map (to_row headers) records })

with_header : (Text → Text) → ℕ → List Record → Parsed CsvParseResult
unfolding check_headers build_rows normalise_header
with_header lower max_rows [] = thrown empty_file
with_header lower max_rows (first ∷ rest) =
    and_then (λ headers. build_rows max_rows headers rest)
      (check_headers (map (normalise_header lower) first.fields))

unfoldable pub parse_csv : (Text → Text) → Text → ℕ → Parsed CsvParseResult
unfolding strip_mark with_header
parse_csv lower input max_rows =
    let text = strip_mark input in
    if is_empty (trim text)
    then thrown empty_file
    else and_then (with_header lower max_rows) (tokenize text)
