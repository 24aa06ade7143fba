-- ===== src/Cdr/Service.antt =====
-- plugins/cdr/services.py: `CDRService`.
pub mod Visible
pub mod Filename
pub mod FilenameMatch
use wazo_call_logd.Common.{
  ℕ, ◌+◌, ◌-◌, ◌*◌, Bool, ◌&&◌, ◌||◌, Option, none, some, List, [], ◌∷◌, ◌++◌, String, leb, eqb,
  filled, is_empty, Result, ok, raise, statement_error, ◌>>=◌, if◌then◌else◌,
}
use wazo_call_logd.Common.Text.{chars}
use wazo_call_logd.Regex.{
  Item, one, many, group_start, group_end, finish, literal, any_char, times, match_groups,
}
use wazo_call_logd.Cdr.Rows.{Cdr}
use wazo_call_logd.Cdr.Filters.{Database, ListParams, can_bind}
use wazo_call_logd.Cdr.Query.{find_all_in_period, count_in_period, get_by_id}
use Prim.Native.Char.{Char, code}

-- `\d`, for ASCII
abbrev pub digit : ℕ → Bool
digit n = leb 48 n && leb n 57

-- `[a-z0-9-]`
abbrev pub uuid_char : ℕ → Bool
uuid_char n = leb 97 n && leb n 122 || leb 48 n && leb n 57 || eqb n 45

-- `^.+-(\d+)-([a-z0-9-]{36})(.*)?$`
abbrev pub recording_filename : List Item
recording_filename =
    (one any_char ∷ many any_char ∷ literal "-")
    ++ ((group_start ∷ one digit ∷ many digit ∷ group_end ∷ literal "-")
        ++ ((group_start ∷ times 36 uuid_char) ++ (group_end ∷ many any_char ∷ finish ∷ [])))

-- The number of the decimal digits behind those that make `n`.
abbrev pub number_of : ℕ → List Char → ℕ
number_of n [] = n
number_of n (c ∷ cs) = number_of (n * 10 + (code c - 48)) cs

abbrev pub first_number : List String → Option ℕ
first_number [] = none
first_number (s ∷ ss) = some (number_of 0 (chars s))

-- The id of the call, where the text is the name of a recording's file.
unfoldable pub recording_call_id : String → Option ℕ
unfolding match_groups
recording_call_id searched = elim (match_groups recording_filename searched) [
  | none ↦ none
  | some groups ↦ first_number groups
]

unfoldable pub searched_id : Option String → Option ℕ
unfolding recording_call_id
searched_id none = none
searched_id (some searched) = if filled searched then recording_call_id searched else none

abbrev pub set_id : Option ℕ → ListParams → ListParams
set_id none params = params
set_id (some n) params = record params { search = none; id = some n }

-- A search for the name of a file becomes a search for its call.
unfoldable pub search_by_filename : ListParams → ListParams
unfolding searched_id
search_by_filename params = set_id (searched_id params.search) params

-- `user_uuids` avoids the hidden participants.
unfoldable pub search_terminal_users : ListParams → ListParams
search_terminal_users params =
    if is_empty params.user_uuids
    then params
    else record params { user_uuids = []; terminal_user_uuids = params.user_uuids }

-- the answer of `list`
pub record Listing : Type 0 where
  pub items : List Cdr
  pub filtered : ℕ
  pub total : ℕ

module _ (db : Database) where
  -- `list`. The first query that runs is that of `count_in_period`.
  unfoldable pub list_cdrs : List Cdr → ListParams → Result Listing
  unfolding search_by_filename search_terminal_users count_in_period find_all_in_period can_bind
  list_cdrs table search_params =
      let dao_params = search_terminal_users (search_by_filename search_params) in
      let (total, filtered, shared) = count_in_period db table dao_params in
      let listed = find_all_in_period db table shared >>= λ call_logs.
      ok (record { items = call_logs; filtered = filtered; total = total }) in
      if can_bind db dao_params then listed else raise statement_error

  -- `get`
  unfoldable pub get_cdr : List Cdr → ℕ → List String → List String → Option Cdr
  unfolding get_by_id
  get_cdr table cdr_id tenant_uuids user_uuids = get_by_id db table cdr_id tenant_uuids user_uuids
