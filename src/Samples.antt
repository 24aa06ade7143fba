-- ===== src/Samples.antt =====
-- Small inputs for the tests: a wazo-confd of one user, the helpers of the interpreter's
-- environment as finite functions, and the channel events of a few calls.
use wazo_call_logd.Common.{
  ◌+◌, ◌-◌, arith, ℕ, true, false, Option, none, some, List, [], ◌∷◌, String, ◌==◌, map, ok, raise,
  http_error, if◌then◌else◌,
}
use wazo_call_logd.External.{External, Extra, Confd, ConfdUser}
use wazo_call_logd.Cel.{
  Cel, EventType, datetime, answer, app_start, bridge_enter, chan_start, chan_end, linkedid_end,
  mixmonitor_start, xivo_outcall,
}
use wazo_call_logd.Generator.Voicemail.{VoicemailCache}
use wazo_call_logd.Generator.Grouping.{Sequence}
use wazo_call_logd.Statistics.{Zone}
use wazo_call_logd.Purger.{Config, Store, StoredCall}
use wazo_call_logd.RawCallLog.{RawCallLog, with_answered, empty_participant, Recording, empty_call}

-- The extras are named instead of written out as JSON.
abbrev decoded : String → Option Extra
decoded s =
    if s == "record a"
    then some (("mixmonitor_id", "a") ∷ ("filename", "/tmp/a.wav") ∷ [])
    else if s == "record b"
    then some (("mixmonitor_id", "b") ∷ ("filename", "/tmp/b.wav") ∷ [])
    else none

abbrev pub ext : External
ext = record {
  json_loads = decoded;
  isoparse = λ s. none;
  unquote = λ s. s;
  uuid4 = λ n. "00000000-0000-0000-0000-000000000000";
  identity_from_channel = λ s. s;
  protocol_interface_from_channel = λ s. some ("PJSIP", s);
  set_order = λ xs. xs;
}

abbrev pub alice : ConfdUser
alice = record { uuid = "alice"; tenant_uuid = "t1"; userfield = some "sales, north"; lines = [] }

abbrev pub confd : Confd
confd = record {
  users_get = λ uuid. if uuid == "alice" then ok alice else raise http_error;
  lines_list = λ name. ok [];
  contexts_list = λ context. ok ("t1" ∷ []);
  voicemails_list = λ number context tenant. ok (record { id = "7"; name = "desk" } ∷ []);
}

abbrev event : ℕ → EventType → String → String → Cel
event id type uniqueid linkedid = record {
  id = id;
  eventtype = type;
  eventtime = datetime id;
  cid_name = "Alice";
  cid_num = "1001";
  exten = "1002";
  context = "default";
  channame = uniqueid;
  appname = "";
  appdata = "";
  userfield = "";
  uniqueid = uniqueid;
  linkedid = linkedid;
  peer = "";
  extra = none;
  call_log_id = none;
}

abbrev recorded : String → Cel → Cel
recorded extra cel = record cel { extra = some extra }

-- An answered call of two channels that ends, and a second one that does not.
abbrev pub simple_call : List Cel
simple_call =
    event 1 chan_start "A" "1"
    ∷ event 2 app_start "A" "1"
    ∷ event 3 chan_start "B" "1"
    ∷ event 4 answer "B" "1"
    ∷ event 5 answer "A" "1"
    ∷ event 6 bridge_enter "A" "1"
    ∷ event 7 bridge_enter "B" "1"
    ∷ event 8 chan_end "B" "1"
    ∷ event 9 chan_end "A" "1"
    ∷ event 10 linkedid_end "A" "1"
    ∷ []

abbrev pub unfinished_call : List Cel
unfinished_call = event 11 chan_start "X" "2" ∷ event 12 app_start "X" "2" ∷ []

-- An originated call that records two files.
abbrev pub originated : List Cel
originated =
    event 1 chan_start "Local/1" "1"
    ∷ event 2 chan_start "Local/2" "1"
    ∷ event 3 chan_start "S" "1"
    ∷ event 4 answer "S" "1"
    ∷ event 5 answer "Local/2" "1"
    ∷ recorded "record a" (event 6 mixmonitor_start "S" "1")
    ∷ recorded "record b" (event 7 mixmonitor_start "S" "1")
    ∷ event 8 chan_end "S" "1"
    ∷ []

abbrev recording : String → ℕ → Option ℕ → Recording
recording uuid start end_time = record {
  uuid = some uuid;
  start_time = some start;
  end_time = end_time;
  path = "/tmp/r.wav";
  mixmonitor_id = "m";
  end_time_is_final = false;
}

-- Answered, with a recording that was paused, and one that never ended.
abbrev pub paused_call : RawCallLog
paused_call = record empty_call {
  date_answer = some 1;
  recordings = recording "u" 1 (some 2) ∷ recording "v" 3 none ∷ recording "u" 4 (some 5) ∷ [];
}

abbrev pub voicemail_call : RawCallLog
voicemail_call = record empty_call {
  reached_voicemail = true;
  voicemail_number = some "8001";
  voicemail_context = some "default";
  tenant_uuid = some "t1";
}

abbrev pub forwarded_call : RawCallLog
forwarded_call = record empty_call { was_forwarded = true }

abbrev pub authoritative_call : RawCallLog
authoritative_call = record empty_call {
  authoritative_destination_info = true;
  destination_exten = some "5000";
  destination_name = some "group";
}

abbrev pub outgoing_leg : List Cel
outgoing_leg = event 1 chan_start "A" "1" ∷ event 2 xivo_outcall "A" "1" ∷ []

-- the cache after one call of tenant t1
abbrev pub known : VoicemailCache
known =
    (
      record { number = "8001"; context = some "default"; tenant = some "t1" },
      some (record { id = "7"; name = "desk" }),
    )
    ∷ []

abbrev pub first_event : Cel
first_event = event 1 chan_start "A" "1"

-- one CEL for each channel
abbrev pub sequence : String → String → List String → Sequence
sequence linkedid channel channels = record {
  linkedid = linkedid;
  cels = map (λ c. event 1 chan_start c linkedid) (channel ∷ channels);
}

abbrev pub day_config : Config
day_config = record {
  retention_cdr_days = 365;
  retention_recording_days = 365;
  retention_export_days = 2;
}

abbrev stored : ℕ → String → ℕ → StoredCall
stored id tenant date = record { id = id; tenant_uuid = tenant; date = date; paths = [] }

-- Two tenants, the second with a retention of its own; the clock stands at day 1000.
abbrev pub day_store : Store
day_store = record {
  config = some day_config;
  retentions =
      record { tenant_uuid = "t2"; cdr_days = some 10; recording_days = none; export_days = none }
      ∷ [];
  tenants = "t1" ∷ "t2" ∷ [];
  call_logs = stored 1 "t1" 100 ∷ stored 2 "t1" 900 ∷ stored 3 "t2" 900 ∷ stored 4 "t2" 995 ∷ [];
  exports = [];
  files = [];
  locked = "/locked.wav" ∷ [];
}

abbrev pub hidden_call : RawCallLog
hidden_call = record empty_call { source_exten = some "s"; destination_exten = some "1002" }

abbrev pub twice_rung : RawCallLog
twice_rung = record empty_call {
  raw_participants = ("a1", with_answered empty_participant) ∷ ("a2", empty_participant) ∷ [];
}

-- A zone one hour ahead, where every month has 31 days.
abbrev pub clock : Zone
clock = record {
  Datetime = ℕ;
  utc = λ t. t;
  wall = λ t. t + 3600;
  from_utc = λ t. t;
  from_wall = λ t. t - 3600;
  next_month = λ t. t + 2678400;
  next_month_grows = λ t. omega arith;
}
