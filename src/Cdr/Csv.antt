-- ===== src/Cdr/Csv.antt =====
-- plugins/cdr/http.py: `_output_csv`. `csv.DictWriter` writes the columns of the headers in their
-- order, and leaves a cell empty where a row has no value.
pub mod Columns
use Prim.Native.Char.{Char}
use wazo_call_logd.Common.{
  ℕ, suc, Option, none, some, List, [], ◌∷◌, ◌++◌, String, map, insert, Result, ok, raise,
  runtime_error,
}
use wazo_call_logd.Common.Dict.{Dict, get, put, keys}
use wazo_call_logd.Common.Text.{chars, string}
use wazo_call_logd.Cdr.Service.Filename.{decimal}

-- A call as CDRSchema dumps it: its fields with their texts, and what `_output_csv` looks at.
pub record CdrData : Type 0 where
  pub fields : Dict String
  pub tags : Option (List String)
  pub recordings : List (Dict String)

-- What a resource gives: a body with an error id, a list of calls, one call, or something else.
pub data CsvInput : Type 0 where
  error_body : CsvInput
  cdr_list : List CdrData → CsvInput
  single_cdr : CdrData → CsvInput
  other_body : CsvInput

pub data CsvOutput : Type 0 where
  json : CsvOutput
  csv : List String → List (List String) → CsvOutput

abbrev pub csv_headers : List String
csv_headers =
    "id" ∷ "tenant_uuid" ∷ "answered" ∷ "start" ∷ "answer" ∷ "end" ∷ "destination_extension"
    ∷ "destination_name" ∷ "destination_internal_extension" ∷ "destination_internal_context"
    ∷ "destination_user_uuid" ∷ "destination_line_id" ∷ "duration" ∷ "call_direction"
    ∷ "call_status" ∷ "requested_name" ∷ "requested_extension" ∷ "requested_context"
    ∷ "requested_internal_extension" ∷ "requested_internal_context" ∷ "requested_user_uuid"
    ∷ "source_extension" ∷ "source_name" ∷ "source_internal_name" ∷ "source_internal_extension"
    ∷ "source_internal_context" ∷ "source_user_uuid" ∷ "source_line_id" ∷ "tags" ∷ []

-- `';'.join(tags)`
unfoldable pub join_tags : List String → List Char
join_tags [] = []
join_tags (t ∷ []) = chars t
join_tags (t ∷ u ∷ ts) = chars t ++ chars ";" ++ join_tags (u ∷ ts)

-- `f'recording_{x}_{key}'`
unfoldable pub csv_key : ℕ → String → String
unfolding decimal
csv_key x key = string (chars "recording_" ++ (decimal x ++ (chars "_" ++ chars key)))

-- The loop over the keys of one recording, on the headers and the row.
unfoldable pub add_recording_fields :
    ℕ → Dict String → List String → Dict String → List String × Dict String
unfolding csv_key
add_recording_fields x [] headers row = (headers, row)
add_recording_fields x ((k, v) ∷ d) headers row =
    add_recording_fields x d (insert (csv_key x k) headers) (put row (csv_key x k) v)

-- The loop over the recordings, from the number `x` on.
unfoldable pub add_recordings_from :
    ℕ → List (Dict String) → List String → Dict String → List String × Dict String
unfolding add_recording_fields
add_recordings_from x [] headers row = (headers, row)
add_recordings_from x (d ∷ ds) headers row =
    let next = add_recording_fields x d headers row in add_recordings_from (suc x) ds next.0 next.1

abbrev pub with_tags : Option (List String) → Dict String → Dict String
with_tags none row = row
with_tags (some tags) row = put row "tags" (string (join_tags tags))

-- The headers and the rows of all calls.
unfoldable pub csv_body : List CdrData → List String → List String × List (Dict String)
unfolding add_recordings_from join_tags
csv_body [] headers = (headers, [])
csv_body (c ∷ cs) headers =
    let first = add_recordings_from 1 c.recordings headers (with_tags c.tags c.fields) in
    let rest = csv_body cs first.0 in (rest.0, first.1 ∷ rest.1)

abbrev pub cell : Option String → String
cell none = ""
cell (some v) = v

unfoldable pub csv_line : List String → Dict String → List String
csv_line [] row = []
csv_line (h ∷ hs) row = cell (get row h) ∷ csv_line hs row

unfoldable pub write_csv : List CdrData → CsvOutput
unfolding csv_body csv_line
write_csv items = let body = csv_body items csv_headers in csv body.0 (map (csv_line body.0) body.1)

-- `_output_csv`; `runtime_error` stands for NotImplementedError
unfoldable pub output_csv : CsvInput → Result CsvOutput
unfolding write_csv
output_csv error_body = ok json
output_csv (cdr_list items) = ok (write_csv items)
output_csv (single_cdr c) = ok (write_csv (c ∷ []))
output_csv other_body = raise runtime_error
