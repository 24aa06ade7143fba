-- ===== src/External.antt =====
-- What the program calls and does not implement. `External` holds the pure helpers (the JSON
-- decoder, dateutil, urllib, uuid4, xivo-lib-python, and the order in which a set is walked);
-- `Confd` is the client of wazo-confd, as the program reads its answers.
use wazo_call_logd.Common.{ℕ, Option, List, String, Result}
use wazo_call_logd.Common.Dict.{Dict}

-- what `extract_cel_extra` decodes: a JSON object whose values are texts
abbrev pub Extra : Type 0
Extra = Dict String

pub record External : Type 0 where
  -- `json.loads`; `none` is a JSONDecodeError
  pub json_loads : String → Option Extra
  -- `dateutil.parser.isoparse`; `none` is a ValueError
  pub isoparse : String → Option ℕ
  -- `urllib.parse.unquote`
  pub unquote : String → String
  -- `uuid.uuid4()`, at the id of the CEL that asks for it
  pub uuid4 : ℕ → String
  -- `identity_from_channel` and `protocol_interface_from_channel` of xivo.asterisk; `none` is an
  -- InvalidChannelError
  pub identity_from_channel : String → String
  pub protocol_interface_from_channel : String → Option (String × String)
  -- the order in which Python walks a set, given its members in the order of insertion
  pub set_order : List String → List String

pub record Extension : Type 0 where
  pub exten : String
  pub context : String

pub record ConfdLine : Type 0 where
  pub id : ℕ
  pub extensions : List Extension

pub record ConfdUser : Type 0 where
  pub uuid : String
  pub tenant_uuid : String
  pub userfield : Option String
  pub lines : List ConfdLine

-- an item of `confd.lines.list`
pub record ListedLine : Type 0 where
  pub id : ℕ
  pub users : List String
  pub extensions : List Extension

pub record Voicemail : Type 0 where
  pub id : String
  pub name : String

-- An answer is a value or the exception that the request raises.
pub record Confd : Type 0 where
  pub users_get : String → Result ConfdUser
  pub lines_list : String → Result (List ListedLine)
  -- the tenants of the contexts with a name
  pub contexts_list : String → Result (List String)
  pub voicemails_list : String → Option String → Option String → Result (List Voicemail)
