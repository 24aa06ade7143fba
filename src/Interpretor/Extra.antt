-- ===== src/Interpretor/Extra.antt =====
-- cel_interpretor.py, the module's functions: what the interpretors read out of the texts of a CEL.
use wazo_call_logd.Common.{
  ℕ, zero, suc, Bool, true, false, ◌&&◌, ◌||◌, Option, none, some, List, [], ◌∷◌, ◌++◌, String,
  length, is_empty, get_elem?, eqb, ltb, leb, filled, or_none, Result, ok, raise, ◌>>=◌, require,
  key_error, index_error, value_error, cel_interpretation, invalid_call_log, if◌then◌else◌,
}
use wazo_call_logd.Common.Dict.{Dict, get, of_pairs}
use wazo_call_logd.Common.Text.{
  chars, string, is_space, strip, rstrip, before_code, partition, split, cut_at, lower_codes,
}
use wazo_call_logd.External.{External, Extra}
use wazo_call_logd.Cel.{Cel, EventTime, datetime, iso}
use wazo_call_logd.RawCallLog.{RawCallLog, BridgeInfo}
use wazo_call_logd.Regex.{
  Item, one, many, few, group_start, group_end, either, finish, match_rest, literal, non_space,
  any_char, word_char, hex_digit, times,
}
use Prim.Native.Char.{Char}

-- ` *` and `(.*?)`
abbrev blanks : List Item
blanks = many (eqb 32) ∷ []

abbrev field : List Item
field = group_start ∷ few any_char ∷ group_end ∷ []

-- `NAME: *(.*?) *`
abbrev labelled : String → List Item
labelled name = literal name ++ (blanks ++ (field ++ blanks))

-- EXTRA_USER_FWD_REGEX
abbrev pub extra_user_fwd_regex : List Item
extra_user_fwd_regex =
    (many any_char ∷ labelled "NUM:")
    ++ ((literal "," ++ blanks) ++ labelled "CONTEXT:")
    ++ ((literal "," ++ blanks) ++ labelled "NAME:")
    ++ either (chars ",") (chars "\"}") ∷ []

-- WAIT_FOR_MOBILE_REGEX
abbrev pub wait_for_mobile_regex : List Item
wait_for_mobile_regex =
    literal "Local/"
    ++ (group_start ∷ one non_space ∷ many non_space ∷ group_end ∷ [])
    ++ literal "@wazo_wait_for_registration-"
    ++ (one non_space ∷ many non_space ∷ [])
    ++ literal ";2"
    ++ (finish ∷ [])

-- MATCHING_MOBILE_PEER_REGEX
abbrev pub matching_mobile_peer_regex : List Item
matching_mobile_peer_regex =
    literal "PJSIP/"
    ++ (group_start ∷ one non_space ∷ many non_space ∷ group_end ∷ [])
    ++ literal "-"
    ++ (one non_space ∷ many non_space ∷ finish ∷ [])

-- MEETING_EXTENSION_REGEX
abbrev pub meeting_extension_regex : List Item
meeting_extension_regex = literal "wazo-meeting-" ++ (many any_char ∷ finish ∷ [])

-- UUID_REGEX
abbrev uuid_regex : List Item
uuid_regex =
    times 8 hex_digit
    ++ literal "-"
    ++ times 4 hex_digit
    ++ literal "-"
    ++ (one (λ n. leb 48 n && leb n 53) ∷ times 3 hex_digit)
    ++ literal "-"
    ++ (one (λ n. eqb n 48 || eqb n 56 || eqb n 57 || eqb n 97 || eqb n 98) ∷ times 3 hex_digit)
    ++ literal "-"
    ++ times 12 hex_digit

-- RECORDING_PATH_REGEX. Its last dot is any character.
abbrev pub recording_path_regex : List Item
recording_path_regex =
    literal "/var/lib/wazo/sounds/tenants/"
    ++ (group_start ∷ uuid_regex)
    ++ (group_end ∷ literal "/monitor/")
    ++ (group_start ∷ uuid_regex)
    ++ (group_end ∷ one any_char ∷ literal "wav")

-- The two branches of KEY_PAIR_KEY_REGEX: a key at the start of the text, and one behind a comma.
abbrev key_at_start : List Item
key_at_start = (group_start ∷ one word_char ∷ many word_char ∷ group_end ∷ []) ++ literal ":"

abbrev key_behind_comma : List Item
key_behind_comma = literal "," ++ (many is_space ∷ key_at_start)

-- A value between two keys, and the value behind the last key.
value_of : Bool → List Char → String
unfolding strip rstrip
value_of last cs = if last then string (strip cs) else string (rstrip 44 (strip cs))

-- The key pair that `key` begins: the text up to the next match is its value.
add_pair : String → List Char × List (String × String) → List (String × String)
unfolding value_of
add_pair key (value, pairs) = (key, value_of (is_empty pairs) value) ∷ pairs

-- The walk of `finditer` over the text behind its start: what stands before the next key, and the
-- pairs from there on. Each round consumes a character, so the length of the text is fuel enough.
key_pairs : ℕ → List Char → List Char × List (String × String)
unfolding add_pair match_rest
key_pairs zero cs = ([], [])
key_pairs (suc n) [] = ([], [])
key_pairs (suc n) (c ∷ cs) =
    let (before, pairs) = key_pairs n cs in
    elim (match_rest key_behind_comma (c ∷ cs)) [
      | some ((key ∷ _), rest) ↦ ([], add_pair key (key_pairs n rest))
      | _ ↦ (c ∷ before, pairs)
    ]

unfoldable pub parse_key_pair_sequence : String → List (String × String)
unfolding key_pairs
parse_key_pair_sequence text =
    let cs = chars text in
    let n = length cs in
    elim (match_rest key_at_start cs) [
      | some ((key ∷ _), rest) ↦ add_pair key (key_pairs n rest)
      | _ ↦ (key_pairs n cs).1
    ]

-- `text.split(': ')[1]`
second_part : List Char → Result String
unfolding cut_at
second_part cs = elim (cut_at (chars ": ") cs).1 [
  | none ↦ raise index_error
  | some rest ↦ ok (string (cut_at (chars ": ") rest).0)
]

-- `extra_tokens[i].split(': ')[1]`
token : List (List Char) → ℕ → Result String
unfolding second_part
token tokens i = do cs ← require index_error (get_elem? tokens i); second_part cs

all_equal : List ℕ → List ℕ → Bool
all_equal [] [] = true
all_equal (a ∷ more) (b ∷ rest) = eqb a b && all_equal more rest
all_equal _ _ = false

pub record MissedCall : Type 0 where
  pub wazo_tenant_uuid : String
  pub source_user_uuid : String
  pub destination_user_uuid : String
  pub source_name : String
  pub destination_name : String

pub record BlockedCall : Type 0 where
  pub wazo_tenant_uuid : String
  pub destination_user_uuid : String
  pub third : String
  pub fourth : String

abbrev fields_of : Extra → Result (List (List Char))
fields_of extra = do text ← require key_error (get extra "extra"); ok (split 44 (chars text))

module _ (ext : External) where
  -- `_extract_user_missed_call_variables`; the destination extension is read and not used
  unfoldable pub extract_user_missed_call_variables : Extra → Result MissedCall
  unfolding token get split
  extract_user_missed_call_variables extra = do
    tokens ← fields_of extra
    tenant ← token tokens 0
    source_user ← token tokens 1
    destination_user ← token tokens 2
    exten ← token tokens 3
    source_name ← token tokens 4
    destination_name ← token tokens 5
    ok (record {
      wazo_tenant_uuid = tenant;
      source_user_uuid = source_user;
      destination_user_uuid = destination_user;
      source_name = ext.unquote source_name;
      destination_name = ext.unquote destination_name;
    })

  -- `_extract_user_blocked_call_variables`; the third and fourth value go by different names here
  -- and in the caller, so they are named by their place.
  unfoldable pub extract_user_blocked_call_variables : Extra → Result BlockedCall
  unfolding token get split
  extract_user_blocked_call_variables extra = do
    tokens ← fields_of extra
    tenant ← token tokens 0
    destination_user ← token tokens 1
    third ← token tokens 2
    fourth ← token tokens 3
    blocked_number ← token tokens 4
    ok (record {
      wazo_tenant_uuid = tenant;
      destination_user_uuid = destination_user;
      third = ext.unquote third;
      fourth = ext.unquote fourth;
    })

  unfoldable pub extract_cel_extra : Option String → Option Extra
  extract_cel_extra none = none
  extract_cel_extra (some text) = if filled text then ext.json_loads text else none

  unfoldable pub parse_eventtime : EventTime → Result ℕ
  parse_eventtime (datetime t) = ok t
  parse_eventtime (iso text) = require value_error (ext.isoparse text)

-- `if extra`: neither None nor an empty object
unfoldable pub present : Option Extra → Option Extra
present (some (e ∷ es)) = some (e ∷ es)
present _ = none

-- `extra.get(key)` is there and not empty
abbrev has : Extra → String → Bool
has extra key = elim (get extra key) [ none ↦ false | some text ↦ filled text ]

unfoldable pub is_valid_mixmonitor_start_extra : Option Extra → Bool
unfolding present get
is_valid_mixmonitor_start_extra extra = elim (present extra) [
  | none ↦ false
  | some e ↦ has e "mixmonitor_id" && has e "filename"
]

unfoldable pub is_valid_mixmonitor_stop_extra : Option Extra → Bool
unfolding present get
is_valid_mixmonitor_stop_extra extra = elim (present extra) [
  | none ↦ false
  | some e ↦ has e "mixmonitor_id"
]

unfoldable pub extract_key_value_pairs_as_dict : Extra → Result (Dict String)
unfolding parse_key_pair_sequence get
extract_key_value_pairs_as_dict extra =
    let text : String = elim (get extra "extra") [ none ↦ "" | some t ↦ t ] in
    let pairs = parse_key_pair_sequence text in
    if is_empty pairs then raise invalid_call_log else ok (of_pairs [] pairs)

pub record OriginateAllLinesInfo : Type 0 where
  pub user_uuid : String
  pub tenant_uuid : String

-- The last value of each expected key, once both are there.
originate_info : List (String × String) → Option OriginateAllLinesInfo
unfolding get
originate_info pairs =
    let info = of_pairs [] pairs in
    elim (get info "user_uuid") [
      | none ↦ none
      | some user ↦ elim (get info "tenant_uuid") [
        | none ↦ none
        | some tenant ↦ some (record { user_uuid = user; tenant_uuid = tenant })
      ]
    ]

unfoldable pub extract_originate_all_lines_variables : Extra → Option OriginateAllLinesInfo
unfolding parse_key_pair_sequence originate_info get
extract_originate_all_lines_variables extra = elim (get extra "extra") [
  | none ↦ none
  | some raw_data ↦
      let pairs = parse_key_pair_sequence raw_data in
      if ltb (length pairs) 2 then none else originate_info pairs
]

unfoldable pub parse_wazo_originate_all_lines_extra :
    External → Option String → Result OriginateAllLinesInfo
unfolding extract_cel_extra present extract_originate_all_lines_variables
parse_wazo_originate_all_lines_extra ext extra = do
  wrapper ← require cel_interpretation (present (extract_cel_extra ext extra))
  require cel_interpretation (extract_originate_all_lines_variables wrapper)

unfoldable pub bridge_info : Extra → Option BridgeInfo
unfolding get
bridge_info details = elim (get details "bridge_id") [
  | none ↦ none
  | some id ↦ elim (get details "bridge_technology") [
    | none ↦ none
    | some technology ↦ some (record { id = id; technology = technology; channels = [] })
  ]
]

-- The bridge of a bridge event, if its extra tells it.
unfoldable pub bridge_of : External → Cel → Option BridgeInfo
unfolding bridge_info extract_cel_extra present
bridge_of ext cel = elim (present (extract_cel_extra ext cel.extra)) [
  | none ↦ none
  | some details ↦ bridge_info details
]

-- The mailbox of a VoiceMail() application: its first part, as number and context.
unfoldable pub voicemail_mailbox : String → String × String
unfolding before_code partition
voicemail_mailbox appdata =
    let (number, context) = partition 64 (before_code 38 (before_code 44 (chars appdata))) in
    (string number, string context)

unfoldable pub runs_voicemail : Cel → Bool
unfolding lower_codes all_equal
runs_voicemail cel = all_equal (lower_codes (chars cel.appname)) (lower_codes (chars "voicemail"))

unfoldable pub interpret_voicemail_app_start : Cel → RawCallLog → RawCallLog
unfolding voicemail_mailbox runs_voicemail
interpret_voicemail_app_start cel call =
    let (number, context) = voicemail_mailbox cel.appdata in
    if runs_voicemail cel
    then record call {
      reached_voicemail = true;
      voicemail_number = or_none number;
      voicemail_context = or_none context;
    }
    else call
