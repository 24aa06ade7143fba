-- ===== src/Cdr/Csv/Columns.antt =====
-- The columns of the CSV that `_output_csv` writes.
use wazo_call_logd.Common.{
  ℕ, suc, sym, Option, some, any, Bool, ◌||◌, ◌==◌, if◌then◌else◌, ◌≡◌, refl, ◌∙◌, ap, false, List,
  [], ◌∷◌, ◌++◌, String, eq_iff, map, elem, insert, elem-insert, elem-append, arith, Bool-cases,
  inl, inr,
}
use wazo_call_logd.Common.Dict.{Dict, put, get, keys, get-put}
use wazo_call_logd.Cdr.Csv.{
  CdrData, CsvOutput, csv, csv_headers, csv_key, add_recording_fields, add_recordings_from,
  csv_body, csv_line, write_csv, with_tags, json, cell,
}

-- No header stands twice.
abbrev pub NoRepeat : List String → Type 0
NoRepeat [] = Unit
NoRepeat (h ∷ hs) = (elem h hs ≡ false) × NoRepeat hs

NoRepeat-append :
    (h : String) (hs : List String) → elem h hs ≡ false → NoRepeat hs → NoRepeat (hs ++ h ∷ [])
NoRepeat-append h [] e n = (refl, tt)
NoRepeat-append h (k ∷ hs) e (nk, n) = (
  ground (arith, e, nk, elem-append k hs (h ∷ []), eq_iff k h, eq_iff h k),
  NoRepeat-append h hs (ground (arith, e)) n,
)

insert-NoRepeat : (h : String) (hs : List String) → NoRepeat hs → NoRepeat (insert h hs)
insert-NoRepeat h hs n = elim (Bool-cases (elem h hs)) [
  | inl e ↦ rw e n
  | inr e ↦ rw e (NoRepeat-append h hs e n)
]

-- What the recordings put into a row, in their order, from the number `x` on.
abbrev pub entries : ℕ → List (Dict String) → Dict String
entries x [] = []
entries x (d ∷ ds) = map (λ (k, v). (csv_key x k, v)) d ++ entries (suc x) ds

-- The last value that a dict of pairs gives to a key, or another.
abbrev pub last_value : Dict String → String → Option String → Option String
last_value [] h o = o
last_value ((k, v) ∷ d) h o = last_value d h (if k == h then some v else o)

last_value-append :
    (d e : Dict String) (h : String) (o : Option String)
    → last_value (d ++ e) h o ≡ last_value e h (last_value d h o)
last_value-append [] e h o = refl
last_value-append ((k, v) ∷ d) e h o = last_value-append d e h (if k == h then some v else o)

keys-append : (d e : Dict String) → keys (d ++ e) ≡ keys d ++ keys e
keys-append [] e = refl
keys-append ((k, v) ∷ d) e = ap (λ ks. k ∷ ks) (keys-append d e)

-- The headers and the row behind a step of the loop, from those before it.
record IsStep (hs more : List String) (row after : Dict String) (put_in : Dict String)
    : Type 0 where
  once : NoRepeat more
  columns : (h : String) → elem h more ≡ (elem h hs || elem h (keys put_in))
  values : (h : String) → get after h ≡ last_value put_in h (get row h)

fields-IsStep :
    (x : ℕ) (d : Dict String) (hs : List String) (row : Dict String)
    → NoRepeat hs
    → let out = add_recording_fields x d hs row in
      IsStep hs out.0 row out.1 (map (λ (k, v). (csv_key x k, v)) d)
unfolding add_recording_fields
fields-IsStep x [] hs row n = record { once = n; columns = λ h. ground arith; values = λ h. refl }
fields-IsStep x ((k, v) ∷ d) hs row n =
    let c = csv_key x k in
    let rest = fields-IsStep x d (insert c hs) (put row c v) (insert-NoRepeat c hs n) in
    record {
      once = rest.once;
      columns = λ h. ground (arith, rest.columns h, elem-insert h c hs);
      values = λ h.
          rest.values h
          ∙ ap (last_value (map (λ (k, v). (csv_key x k, v)) d) h) (get-put row c h v);
    }

recordings-IsStep :
    (x : ℕ) (ds : List (Dict String)) (hs : List String) (row : Dict String)
    → NoRepeat hs
    → let out = add_recordings_from x ds hs row in IsStep hs out.0 row out.1 (entries x ds)
unfolding add_recordings_from
recordings-IsStep x [] hs row n = record {
  once = n;
  columns = λ h. ground arith;
  values = λ h. refl;
}
recordings-IsStep x (d ∷ ds) hs row n =
    let next = add_recording_fields x d hs row in
    let named = map (λ (k, v). (csv_key x k, v)) d in
    let first = fields-IsStep x d hs row n in
    let rest = recordings-IsStep (suc x) ds next.0 next.1 first.once in
    record {
      once = rest.once;
      columns = λ h. ground (
        arith,
        rest.columns h,
        first.columns h,
        ap (elem h) (keys-append named (entries (suc x) ds)),
        elem-append h (keys named) (keys (entries (suc x) ds)),
      );
      values = λ h.
          rest.values h
          ∙ ap (last_value (entries (suc x) ds) h) (first.values h)
          ∙ sym (last_value-append named (entries (suc x) ds) h (get row h));
    }

-- The cell of a call in a column: the last value that its recordings have for the column, or else
-- what the call itself has there.
abbrev pub cell_of : CdrData → String → String
cell_of c h = cell (last_value (entries 1 c.recordings) h (get (with_tags c.tags c.fields) h))

-- A recording of one of the calls has a field for this column.
abbrev pub in_recordings : List CdrData → String → Bool
in_recordings cs h = any (λ c. elem h (keys (entries 1 c.recordings))) cs

csv_line-map :
    (hs : List String) (row : Dict String) (value : String → String)
    → ((h : String) → cell (get row h) ≡ value h)
    → csv_line hs row ≡ map value hs
unfolding csv_line
csv_line-map [] row value e = refl
csv_line-map (h ∷ hs) row value e = ground (arith, e h, csv_line-map hs row value e)

body_lem :
    (cs : List CdrData) (hs : List String)
    → NoRepeat hs
    → let out = csv_body cs hs in
      NoRepeat out.0
      × ((h : String) → elem h out.0 ≡ (elem h hs || in_recordings cs h))
      × ((all_columns : List String)
          → map (csv_line all_columns) out.1 ≡ map (λ c. map (cell_of c) all_columns) cs)
unfolding csv_body
body_lem [] hs n = (n, λ h. ground arith, λ all_columns. refl)
body_lem (c ∷ cs) hs n =
    let row = with_tags c.tags c.fields in
    let first = recordings-IsStep 1 c.recordings hs row n in
    let next = add_recordings_from 1 c.recordings hs row in
    let (once, columns, lines) = body_lem cs next.0 first.once in
    (
      once,
      λ h. ground (arith, columns h, first.columns h),
      λ all_columns.
          ap (λ l. l ∷ map (csv_line all_columns) (csv_body cs next.0).1)
            (csv_line-map all_columns next.1 (cell_of c) (λ h. ap cell (first.values h)))
          ∙ ap (λ ls. map (cell_of c) all_columns ∷ ls) (lines all_columns),
    )

-- No column stands twice; the columns are those of every call and those of the recordings; and each
-- call has its line, with its cell in each column.
abbrev pub IsTable : List CdrData → CsvOutput → Type 0
IsTable cs json = ⊥
IsTable cs (csv hs lines) =
    NoRepeat hs
    × ((h : String) → elem h hs ≡ (elem h csv_headers || in_recordings cs h))
    × (lines ≡ map (λ c. map (cell_of c) hs) cs)

-- The CSV of any list of calls is a table: its columns are those of the fields, and one for each
-- field of each recording, by the number of the recording in its call, none of them twice. It has a
-- line for each call, with a cell for each column, which holds the last value that the recordings
-- of the call give for the column, or else the call's own.
pub write_csv-IsTable : (cs : List CdrData) → IsTable cs (write_csv cs)
unfolding write_csv
write_csv-IsTable cs =
    let body = csv_body cs csv_headers in
    let (once, columns, lines) = body_lem cs csv_headers headers_once in
    (once, columns, lines body.0)
  where
    headers_once : NoRepeat csv_headers
    headers_once = ground arith
