-- ===== src/Transcription/Listing.antt =====
-- database/queries/voicemail_transcription.py: `find_all`, and the pattern of a search.
pub mod Counts
pub mod Literal
use wazo_call_logd.Common.{
  ℕ, Bool, false, ◌&&◌, Option, none, some, List, ◌++◌, String, ltb, leb, eqb, any, keep, length,
}
use wazo_call_logd.Common.Text.{chars, string}
use wazo_call_logd.Common.Sort.{sort}
use wazo_call_logd.Common.Sql.{take, drop}
use wazo_call_logd.Cdr.Filters.{Database, replace_code, OrderDirection, asc, desc, when, when_text}
use wazo_call_logd.Transcription.{Transcription, State, in_tenants}
use Prim.Native.Char.{Char}

pub data OrderColumn : Type 0 where
  created_at message_id : OrderColumn

pub record Params : Type 0 where
  pub voicemail_ids : Option (List ℕ)
  pub start : Option ℕ
  pub end : Option ℕ
  pub search_text : Option String
  pub order : OrderColumn
  pub direction : OrderDirection
  pub offset : Option ℕ
  pub limit : Option ℕ

abbrev pub backslash : List Char
backslash = chars "\\"

-- `.replace('\\', r'\\').replace('%', r'\%').replace('_', r'\_')`
unfoldable pub escape : List Char → List Char
unfolding replace_code
escape cs =
    replace_code 95 (backslash ++ chars "_")
      (replace_code 37 (backslash ++ chars "%") (replace_code 92 (backslash ++ backslash) cs))

-- `f'%{escaped}%'`
unfoldable pub search_pattern : String → String
unfolding escape
search_pattern text = string (chars "%" ++ (escape (chars text) ++ chars "%"))

abbrev pub in_voicemails : List ℕ → Transcription → Bool
in_voicemails ids r = elim r.attributes.voicemail_id [ none ↦ false | some id ↦ any (eqb id) ids ]

-- the answer of `find_all`
pub record Page : Type 0 where
  pub items : List Transcription
  pub total : ℕ
  pub filtered : ℕ

abbrev pub skipped_rows : Option ℕ → List Transcription → List Transcription
skipped_rows none rows = rows
skipped_rows (some n) rows = drop n rows

-- Here a limit of 0 is a limit.
abbrev pub limited_rows : Option ℕ → List Transcription → List Transcription
limited_rows none rows = rows
limited_rows (some n) rows = take n rows

module _ (db : Database) where
  unfoldable pub matches_params : Params → Transcription → Bool
  unfolding search_pattern
  matches_params params r =
      when params.voicemail_ids (λ ids. in_voicemails ids r)
      && when params.start (λ t. leb t r.created_at)
      && when params.end (λ t. ltb r.created_at t)
      && when_text params.search_text
          (λ s. db.ilike (search_pattern s) r.attributes.transcription_text)

  -- `order_by`
  unfoldable pub column_le : OrderColumn → Transcription → Transcription → Bool
  column_le created_at a b = leb a.created_at b.created_at
  column_le message_id a b = db.text_le a.attributes.message_id b.attributes.message_id

  unfoldable pub ordered_rows :
      OrderColumn → OrderDirection → List Transcription → List Transcription
  unfolding sort column_le
  ordered_rows column asc = sort (column_le column)
  ordered_rows column desc = sort (λ a b. column_le column b a)

  unfoldable pub find_all : Option (List String) → Params → State → Page
  unfolding matches_params ordered_rows
  find_all tenants params s =
      let visible = keep (in_tenants tenants) s.rows in
      let matching = keep (matches_params params) visible in
      record {
        items =
            limited_rows params.limit
              (skipped_rows params.offset (ordered_rows params.order params.direction matching));
        total = length visible;
        filtered = length matching;
      }
