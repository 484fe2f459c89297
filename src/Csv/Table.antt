-- ===== src/Csv/Table.antt =====
-- What the rest of the import relies on when `parseCsv` returns.
use swift_chain_backend.Common.{
  ℕ, suc, ◌≤◌, ◌<◌, true, false, List, [], ◌∷◌, ◌++◌, if◌then◌else◌, Text, text_eq_iff, ◌≡◌, ◌≢◌,
  refl, sym, ap, ◌∙◌, arith, Bool-cases, inl, inr, All, any, map, length, Dict, put, append-nil,
  append_assoc, All-append, subst, is_empty, trim,
}
use swift_chain_backend.Csv.{
  Record, CsvParseResult, Parsed, ok, thrown, parse_csv, tokenize, strip_mark, contains, repeated,
  check_headers, build_rows, cells, to_row, with_header, is_nil, and_then, head_or_empty, tail_of,
  normalise_header,
}

abbrev pub HasNoRepeats : List Text → Type 0
HasNoRepeats [] = Unit
HasNoRepeats (h ∷ hs) = All (λ k. h ≢ k) hs × HasNoRepeats hs

abbrev keys : Dict Text → List Text
keys [] = []
keys ((k, v) ∷ m) = k ∷ keys m

pub record IsTable (max_rows : ℕ) (r : CsvParseResult) : Type 0 where
  -- Every column has a name, and no two columns the same.
  pub named : any is_empty r.headers ≡ false
  pub distinct : HasNoRepeats r.headers
  -- There is a data row, and there are at most `max_rows`.
  pub some_rows : 0 < length r.rows
  pub few_rows : length r.rows ≤ max_rows
  -- Every row has a value for each column and for nothing else, in the order of the columns.
  pub keyed : All (λ row. keys row.values ≡ r.headers) r.rows

abbrev IsFresh : List Text → Text → Type 0
IsFresh seen h = contains seen h ≡ false

IsFresh-tail :
    (x : Text) (seen hs : List Text)
    → All (IsFresh (x ∷ seen)) hs
    → All (λ k. x ≢ k) hs × All (IsFresh seen) hs
unfolding contains
IsFresh-tail x seen [] h = (tt, tt)
IsFresh-tail x seen (k ∷ hs) (h, t) =
    let (apart, fresh) = IsFresh-tail x seen hs t in
    ((ground (arith, text_eq_iff x k), apart), (ground arith, fresh))

HasNoRepeats-repeated :
    (seen hs : List Text)
    → is_nil (repeated seen hs) ≡ true
    → All (IsFresh seen) hs × HasNoRepeats hs
unfolding repeated
HasNoRepeats-repeated seen [] e = (tt, tt)
HasNoRepeats-repeated seen (h ∷ hs) e = elim (Bool-cases (contains seen h)) [
  | inl twice ↦ absurd (ground arith)
  | inr once ↦
      let (fresh, distinct) = HasNoRepeats-repeated (h ∷ seen) hs (rw (once, if◌then◌else◌) at e) in
      let (apart, rest) = IsFresh-tail h seen hs fresh in ((once, rest), (apart, distinct))
]

keys-put_fresh :
    (k v : Text) (m : Dict Text) → All (λ j. j ≢ k) (keys m) → keys (put k v m) ≡ keys m ++ k ∷ []
unfolding put
keys-put_fresh k v [] h = refl
keys-put_fresh k v ((j, w) ∷ m) (h, t) = ground (arith, text_eq_iff j k, keys-put_fresh k v m t)

abbrev IsApart : List Text → Text → Type 0
IsApart ks h = All (λ j. j ≢ h) ks

IsApart-step :
    (h : Text) (ks hs : List Text)
    → All (IsApart ks) hs
    → All (λ k. h ≢ k) hs
    → All (IsApart (ks ++ h ∷ [])) hs
IsApart-step h ks [] a b = tt
IsApart-step h ks (k ∷ hs) (a, as') (b, bs) =
    (All-append (λ j. j ≢ k) ks (h ∷ []) a (b, tt), IsApart-step h ks hs as' bs)

keys-cells :
    (hs fields : List Text) (values : Dict Text)
    → All (IsApart (keys values)) hs
    → HasNoRepeats hs
    → keys (cells hs fields values) ≡ keys values ++ hs
unfolding cells
keys-cells [] fields values a d = sym (append-nil (keys values))
keys-cells (h ∷ hs) fields values (a, as') (d, ds) =
    let cell = trim (head_or_empty fields) in
    let added = keys-put_fresh h cell values a in
    keys-cells hs (tail_of fields) (put h cell values)
      (subst (λ ks. All (IsApart ks) hs) (sym added) (IsApart-step h (keys values) hs as' d)) ds
    ∙ rw (added, append_assoc (keys values) (h ∷ []) hs)

no_keys : (hs : List Text) → All (IsApart []) hs
no_keys [] = tt
no_keys (h ∷ hs) = (tt, no_keys hs)

keyed_rows :
    (hs : List Text) (rs : List Record)
    → HasNoRepeats hs
    → All (λ row. keys row.values ≡ hs) (map (to_row hs) rs)
unfolding to_row
keyed_rows hs [] d = tt
keyed_rows hs (r ∷ rs) d = (keys-cells hs r.fields [] (no_keys hs) d, keyed_rows hs rs d)

length-map_rows : (hs : List Text) (rs : List Record) → length (map (to_row hs) rs) ≡ length rs
length-map_rows hs [] = refl
length-map_rows hs (r ∷ rs) = ap suc (length-map_rows hs rs)

check_headers-eq-ok :
    (hs hs' : List Text)
    → check_headers hs ≡ ok hs'
    → (hs ≡ hs') × (any is_empty hs ≡ false) × HasNoRepeats hs
unfolding check_headers
check_headers-eq-ok hs hs' e = elim (Bool-cases (is_nil (repeated [] hs))) [
  | inl once ↦ (ground arith, ground arith, (HasNoRepeats-repeated [] hs once).1)
  | inr twice ↦ absurd (ground arith)
]

build_rows-eq-ok :
    (max_rows : ℕ) (hs : List Text) (rs : List Record) (r : CsvParseResult)
    → build_rows max_rows hs rs ≡ ok r
    → (r ≡ record { headers = hs; rows = map (to_row hs) rs })
      × (0 < length rs)
      × (length rs ≤ max_rows)
unfolding build_rows
build_rows-eq-ok max_rows hs [] r e = absurd (cc)
build_rows-eq-ok max_rows hs (x ∷ rs) r e = (ground arith, ground arith, ground arith)

and_then-eq-ok {ℓ κ} :
    {A : Type ℓ} {B : Type κ} (m : Parsed A) (f : A → Parsed B) {b : B}
    → and_then f m ≡ ok b
    → (a : A) × (m ≡ ok a) × (f a ≡ ok b)
and_then-eq-ok (ok a) f h = (a, refl, h)
and_then-eq-ok (thrown e) f h = absurd (cc)

with_header-IsTable :
    (lower : Text → Text) (max_rows : ℕ) (rs : List Record) (r : CsvParseResult)
    → with_header lower max_rows rs ≡ ok r
    → IsTable max_rows r
unfolding with_header
with_header-IsTable lower max_rows [] r e = absurd (cc)
with_header-IsTable lower max_rows (first ∷ rs) r e =
    let raw = map (normalise_header lower) first.fields in
    let (hs, checked, built) =
      and_then-eq-ok (check_headers raw) (λ headers. build_rows max_rows headers rs) e in
    let (same, named, distinct) = check_headers-eq-ok raw hs checked in
    let (result, some_rows, few_rows) = build_rows-eq-ok max_rows hs rs r built in
    let headers_ok : any is_empty hs ≡ false = rw same at named in
    let distinct_ok : HasNoRepeats hs = rw same at distinct in
    rw result (record {
      named = headers_ok;
      distinct = distinct_ok;
      some_rows = rw (length-map_rows hs rs) some_rows;
      few_rows = rw (length-map_rows hs rs) few_rows;
      keyed = keyed_rows hs rs distinct_ok;
    })

-- If `parseCsv` returns a result, every column has a name and no two the same, there is at least
-- one data row and at most `max_rows`, and every row has a value for each column and nothing else.
pub parse_csv-IsTable :
    (lower : Text → Text) (input : Text) (max_rows : ℕ) (r : CsvParseResult)
    → parse_csv lower input max_rows ≡ ok r
    → IsTable max_rows r
unfolding parse_csv
parse_csv-IsTable lower input max_rows r e =
    elim (Bool-cases (is_empty (trim (strip_mark input)))) [
      | inl blank ↦ absurd (ground arith)
      | inr text ↦
          let (rs, _, read) =
            and_then-eq-ok (tokenize (strip_mark input)) (with_header lower max_rows)
              (rw (text, if◌then◌else◌) at e) in
          with_header-IsTable lower max_rows rs r read
    ]
