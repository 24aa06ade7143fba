-- ===== src/Cel.antt =====
-- The channel event log entries that the service reads: the columns of xivo_dao's CEL that the
-- program uses, and the event types of database/cel_event_type.py.
use wazo_call_logd.Common.{ℕ, Bool, Option, String, ◌==◌}

-- the texts of `CELEventType`; any other text is `other`
pub data EventType : Type 0 where
  answer app_end app_start attended_transfer blind_transfer bridge_end bridge_start : EventType
  bridge_enter bridge_exit chan_start chan_end forward hangup linkedid_end : EventType
  mixmonitor_start mixmonitor_stop pickup transfer : EventType
  wazo_meeting_name wazo_conference xivo_from_s xivo_incall xivo_outcall xivo_user_fwd : EventType
  wazo_user_missed_call wazo_user_blocked_call wazo_call_log_destination : EventType
  wazo_call_log_requested_internal wazo_originate_all_lines other : EventType

unfoldable pub event_name : EventType → String
event_name answer = "ANSWER"
event_name app_end = "APP_END"
event_name app_start = "APP_START"
event_name attended_transfer = "ATTENDEDTRANSFER"
event_name blind_transfer = "BLINDTRANSFER"
event_name bridge_end = "BRIDGE_END"
event_name bridge_start = "BRIDGE_START"
event_name bridge_enter = "BRIDGE_ENTER"
event_name bridge_exit = "BRIDGE_EXIT"
event_name chan_start = "CHAN_START"
event_name chan_end = "CHAN_END"
event_name forward = "FORWARD"
event_name hangup = "HANGUP"
event_name linkedid_end = "LINKEDID_END"
event_name mixmonitor_start = "MIXMONITOR_START"
event_name mixmonitor_stop = "MIXMONITOR_STOP"
event_name pickup = "PICKUP"
event_name transfer = "TRANSFER"
event_name wazo_meeting_name = "WAZO_MEETING_NAME"
event_name wazo_conference = "WAZO_CONFERENCE"
event_name xivo_from_s = "XIVO_FROM_S"
event_name xivo_incall = "XIVO_INCALL"
event_name xivo_outcall = "XIVO_OUTCALL"
event_name xivo_user_fwd = "XIVO_USER_FWD"
event_name wazo_user_missed_call = "WAZO_USER_MISSED_CALL"
event_name wazo_user_blocked_call = "WAZO_USER_BLOCKED_CALL"
event_name wazo_call_log_destination = "WAZO_CALL_LOG_DESTINATION"
event_name wazo_call_log_requested_internal = "WAZO_CALL_LOG_REQUESTED_INTERNAL"
event_name wazo_originate_all_lines = "WAZO_ORIGINATE_ALL_LINES"
event_name other = ""

-- `cel.eventtype == t`
unfoldable pub is_event : EventType → EventType → Bool
unfolding event_name
is_event t u = event_name t == event_name u

-- An event time is a datetime (a column) or an ISO text; `datetime n` is an instant.
pub data EventTime : Type 0 where
  datetime : ℕ → EventTime
  iso : String → EventTime

pub record Cel : Type 0 where
  pub id : ℕ
  pub eventtype : EventType
  pub eventtime : EventTime
  pub cid_name : String
  pub cid_num : String
  pub exten : String
  pub context : String
  pub channame : String
  pub appname : String
  pub appdata : String
  pub userfield : String
  pub uniqueid : String
  pub linkedid : String
  pub peer : String
  pub extra : Option String
  pub call_log_id : Option ℕ
