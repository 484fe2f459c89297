-- ===== src/Csv/RoundTrip.antt =====
-- Reading back a table that was written with every field quoted.
use swift_chain_backend.Common.{
  ℕ, suc, ◌+◌, Bool, true, false, List, [], ◌∷◌, ◌++◌, ◌==◌, if◌then◌else◌, Text, ◌≡◌, ◌≢◌, refl,
  sym, ap, ◌∙◌, arith, ==_iff, add_assoc, Bool-cases, inl, inr, append_assoc, append-nil,
}
use swift_chain_backend.Csv.{
  quote, comma, newline, Record, Lexer, ok, scan, read_char, skips, finish, tokenize,
}

-- A field between quotes, its own quotes doubled, with `rest` after it.
pub write_quoted : Text → Text → Text
write_quoted [] rest = quote ∷ rest
write_quoted (c ∷ s) rest =
    if c == quote then quote ∷ quote ∷ write_quoted s rest else c ∷ write_quoted s rest

pub write_field : Text → Text → Text
unfolding write_quoted
write_field field rest = quote ∷ write_quoted field rest

-- The fields of a record with commas between them, then a line feed.
pub write_fields : Text → List Text → Text → Text
unfolding write_field
write_fields field [] rest = write_field field (newline ∷ rest)
write_fields field (next ∷ more) rest = write_field field (comma ∷ write_fields next more rest)

-- A record has at least one field.
pub write_records : List (Text × List Text) → Text
unfolding write_fields
write_records [] = []
write_records ((field, more) ∷ records) = write_fields field more (write_records records)

pub newlines : Text → ℕ
newlines [] = 0
newlines (c ∷ s) = let rest = newlines s in if c == newline then suc rest else rest

-- The lexer after the characters of a quoted field and its closing quote.
after_quoted : Text → Lexer → Lexer
unfolding newlines
after_quoted field s = record s {
  field = s.field ++ field;
  line = s.line + newlines field;
  in_quotes = false;
}

-- The lexer after one character that is no quote.
kept_char : ℕ → Lexer → Lexer
kept_char c s = record s {
  field = s.field ++ c ∷ [];
  line = if c == newline then s.line + 1 else s.line;
}

after_quoted_nil : (s : Lexer) → after_quoted [] s ≡ record s { in_quotes = false }
unfolding after_quoted
after_quoted_nil s = ground (arith, append-nil s.field)

after_quoted_cons :
    (c : ℕ) (field : Text) (s : Lexer)
    → after_quoted (c ∷ field) s ≡ after_quoted field (kept_char c s)
unfolding after_quoted kept_char
after_quoted_cons c field s = ground (arith, append_assoc s.field (c ∷ []) field)

module _ (s : Lexer) (quoted : s.in_quotes ≡ true) where
  read_closing :
      (d : ℕ) (rest : Text)
      → d ≢ quote
      → (read_char quote (d ∷ rest) s ≡ record s { in_quotes = false })
        × (skips quote (d ∷ rest) s ≡ false)
  unfolding read_char skips
  read_closing d rest h = ground arith

  read_doubled :
      (rest : Text)
      → (read_char quote (quote ∷ rest) s ≡ kept_char quote s)
        × (skips quote (quote ∷ rest) s ≡ true)
  unfolding read_char skips kept_char
  read_doubled rest = ground arith

  read_kept :
      (c : ℕ) (rest : Text)
      → (c == quote) ≡ false
      → (read_char c rest s ≡ kept_char c s) × (skips c rest s ≡ false)
  unfolding read_char skips kept_char
  read_kept c rest h = ground arith

scan_read :
    (c : ℕ) (rest : Text) (s s' : Lexer) (b : Bool)
    → (read_char c rest s ≡ s') × (skips c rest s ≡ b)
    → scan false (c ∷ rest) s ≡ scan b rest s'
unfolding scan
scan_read c rest s s' b (read, skip) = cc

scan_skip : (c : ℕ) (rest : Text) (s : Lexer) → scan true (c ∷ rest) s ≡ scan false rest s
unfolding scan
scan_skip c rest s = refl

-- Inside quotes, the characters of a written field are read up to the closing quote.
scan_quoted :
    (field : Text) (d : ℕ) (rest : Text) (s : Lexer)
    → s.in_quotes ≡ true
    → d ≢ quote
    → scan false (write_quoted field (d ∷ rest)) s ≡ scan false (d ∷ rest) (after_quoted field s)
unfolding write_quoted
scan_quoted [] d rest s q h =
    scan_read quote (d ∷ rest) s _ false (read_closing s q d rest h)
    ∙ ap (scan false (d ∷ rest)) (sym (after_quoted_nil s))
scan_quoted (c ∷ field) d rest s q h = elim (Bool-cases (c == quote)) [
  | inl double ↦
      let tail = write_quoted field (d ∷ rest) in
      rw (double, (==_iff c quote).0 double, after_quoted_cons quote field s)
        (scan_read quote (quote ∷ tail) s _ true (read_doubled s q tail)
          ∙ scan_skip quote tail (kept_char quote s)
          ∙ scan_quoted field d rest (kept_char quote s) (unfold kept_char in q) h)
  | inr plain ↦
      let tail = write_quoted field (d ∷ rest) in
      rw (plain, after_quoted_cons c field s)
        (scan_read c tail s _ false (read_kept s q c tail plain)
          ∙ scan_quoted field d rest (kept_char c s) (unfold kept_char in q) h)
]

-- The lexer outside quotes, with `field` read so far.
reading : List Record → Text → List Text → ℕ → ℕ → Bool → Lexer
reading records field fields line first content = record {
  records = records;
  field = field;
  fields = fields;
  in_quotes = false;
  line = line;
  record_start_line = first;
  record_has_content = content;
}

module _ (rs : List Record) (fs : List Text) (line first : ℕ) where
  scan_field :
      (b : Bool) (f : Text) (d : ℕ) (rest : Text)
      → d ≢ quote
      → scan false (write_field f (d ∷ rest)) (reading rs [] fs line first b)
        ≡ scan false (d ∷ rest) (reading rs f fs (line + newlines f) first true)
  unfolding write_field reading after_quoted read_char skips
  scan_field b f d rest h =
      scan_read quote (write_quoted f (d ∷ rest)) _ _ false (refl, refl)
      ∙ scan_quoted f d rest _ refl h

  scan-comma :
      (f rest : Text)
      → scan false (comma ∷ rest) (reading rs f fs line first true)
        ≡ scan false rest (reading rs [] (fs ++ f ∷ []) line first true)
  unfolding reading read_char skips
  scan-comma f rest = scan_read comma rest _ _ false (refl, refl)

  scan-newline :
      (f rest : Text)
      → scan false (newline ∷ rest) (reading rs f fs line first true)
        ≡ scan false rest (
            reading
              (rs ++ record { line_number = first; fields = fs ++ f ∷ [] } ∷ [])
              []
              []
              (line + 1)
              (line + 1)
              false)
  unfolding reading read_char skips
  scan-newline f rest = scan_read newline rest _ _ false (refl, refl)

fields_newlines : Text → List Text → ℕ
fields_newlines f [] = newlines f
fields_newlines f (g ∷ more) = newlines f + fields_newlines g more

scan_fields :
    (rs : List Record) (fs : List Text) (line first : ℕ) (b : Bool) (f : Text) (more : List Text)
    (rest : Text)
    → scan false (write_fields f more rest) (reading rs [] fs line first b)
      ≡ scan false rest (
          reading
            (rs ++ record { line_number = first; fields = fs ++ f ∷ more } ∷ [])
            []
            []
            (line + fields_newlines f more + 1)
            (line + fields_newlines f more + 1)
            false)
unfolding write_fields fields_newlines
scan_fields rs fs line first b f [] rest =
    scan_field rs fs line first b f newline rest (omega arith)
    ∙ scan-newline rs fs (line + newlines f) first f rest
scan_fields rs fs line first b f (g ∷ more) rest =
    scan_field rs fs line first b f comma _ (omega arith)
    ∙ scan-comma rs fs (line + newlines f) first f _
    ∙ scan_fields rs (fs ++ f ∷ []) (line + newlines f) first true g more rest
    ∙ rw (append_assoc fs (f ∷ []) (g ∷ more), add_assoc line (newlines f) (fields_newlines g more))

-- The records with the line on which each begins, the first one on `line`.
pub numbered : ℕ → List (Text × List Text) → List Record
unfolding fields_newlines
numbered line [] = []
numbered line ((f, more) ∷ records) =
    record { line_number = line; fields = f ∷ more }
    ∷ numbered (line + fields_newlines f more + 1) records

last_line : ℕ → List (Text × List Text) → ℕ
last_line line [] = line
last_line line ((f, more) ∷ records) = last_line (line + fields_newlines f more + 1) records

scan_records :
    (rs : List Record) (line : ℕ) (records : List (Text × List Text))
    → scan false (write_records records) (reading rs [] [] line line false)
      ≡ reading
          (rs ++ numbered line records)
          []
          []
          (last_line line records)
          (last_line line records)
          false
unfolding write_records numbered last_line
scan_records rs line [] = unfold scan reading in rw (append-nil rs)
scan_records rs line ((f, more) ∷ records) =
    let next = line + fields_newlines f more + 1 in
    scan_fields rs [] line line false f more (write_records records)
    ∙ scan_records (rs ++ record { line_number = line; fields = f ∷ more } ∷ []) next records
    ∙ rw (
        append_assoc rs (record { line_number = line; fields = f ∷ more } ∷ [])
          (numbered next records))

-- The tokenizer gives back every table of records with at least one field each, written with all
-- fields quoted and a line feed after each record: the fields as they were, whatever characters they
-- hold, and each record with the physical line on which it begins.
pub tokenize-write_records :
    (records : List (Text × List Text)) → tokenize (write_records records) ≡ ok (numbered 1 records)
unfolding tokenize reading
tokenize-write_records records = ap finish (scan_records [] 1 records)
