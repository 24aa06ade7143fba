-- ===== src/Interpretor/UserEvents/Direction.antt =====
-- The user events say nothing about the direction of the call.
use wazo_call_logd.Common.{◌≡◌, String, arith, Returns}
use wazo_call_logd.Common.Dict.{Dict}
use wazo_call_logd.External.{External}
use wazo_call_logd.Cel.{Cel}
use wazo_call_logd.RawCallLog.{RawCallLog, set_tenant_uuid, insert_or_update_participants_info}
use wazo_call_logd.Interpretor.Caller.Direction.{route, SameRoute}
use wazo_call_logd.Interpretor.UserEvents.{
  set_destination, conclude_destination, request_internal, caller_wazo_conference,
  caller_wazo_meeting_name, caller_wazo_user_missed_call, caller_wazo_user_blocked_call,
  caller_wazo_call_log_destination, caller_wazo_call_log_requested_internal,
}

request_internal-route :
    (info : Dict String) (call : RawCallLog) → route (request_internal info call) ≡ route call
unfolding request_internal
request_internal-route info call = ground arith

module _ (ext : External) (cel : Cel) (call : RawCallLog) where
  pub caller_wazo_conference-route : Returns (SameRoute call) (caller_wazo_conference ext cel call)
  unfolding caller_wazo_conference
  caller_wazo_conference-route = ground arith

  pub caller_wazo_meeting_name-route :
      Returns (SameRoute call) (caller_wazo_meeting_name ext cel call)
  unfolding caller_wazo_meeting_name
  caller_wazo_meeting_name-route = ground arith

  pub caller_wazo_user_missed_call-route :
      Returns (SameRoute call) (caller_wazo_user_missed_call ext cel call)
  unfolding caller_wazo_user_missed_call set_tenant_uuid insert_or_update_participants_info
  caller_wazo_user_missed_call-route = ground arith

  pub caller_wazo_user_blocked_call-route :
      Returns (SameRoute call) (caller_wazo_user_blocked_call ext cel call)
  unfolding caller_wazo_user_blocked_call set_tenant_uuid insert_or_update_participants_info
  caller_wazo_user_blocked_call-route = ground arith

  pub caller_wazo_call_log_destination-route :
      Returns (SameRoute call) (caller_wazo_call_log_destination ext cel call)
  unfolding caller_wazo_call_log_destination set_destination conclude_destination
  caller_wazo_call_log_destination-route = ground arith

  pub caller_wazo_call_log_requested_internal-route :
      Returns (SameRoute call) (caller_wazo_call_log_requested_internal ext cel call)
  unfolding caller_wazo_call_log_requested_internal
  caller_wazo_call_log_requested_internal-route = grind (arith, request_internal-route)
