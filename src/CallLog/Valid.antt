-- ===== src/CallLog/Valid.antt =====
-- Which calls become call logs.
use wazo_call_logd.Common.{
  ◌≡◌, refl, Bool, true, false, ◌&&◌, ◌||◌, truthy, is_some, Result, ok, raise, Returns,
  Option-cases, Bool-cases, inl, inr,
}
use wazo_call_logd.RawCallLog.{RawCallLog}
use wazo_call_logd.CallLog.{CallLog, to_call_log}

abbrev pub has_source : RawCallLog → Bool
has_source call = truthy call.source_name || truthy call.source_exten

-- a date, and a name or an extension of the source
abbrev pub is_storable : RawCallLog → Bool
is_storable call = is_some call.date && has_source call

abbrev pub succeeds : Result CallLog → Bool
succeeds (ok log) = true
succeeds (raise e) = false

-- A call becomes a call log exactly when it has a date and its source has a name or an extension;
-- the call log has the recordings, the participants and the CELs of the call.
pub to_call_log-is_storable :
    (call : RawCallLog)
    → (succeeds (to_call_log call) ≡ is_storable call)
      × Returns
          (λ log.
            (log.recordings ≡ call.recordings)
            × (log.participants ≡ call.participants)
            × (log.cel_ids ≡ call.cel_ids))
          (to_call_log call)
unfolding to_call_log
to_call_log-is_storable call = elim (Option-cases call.date) [
  | inl e ↦ rw (e, to_call_log) (refl, tt)
  | inr (date, e) ↦
      rw (e, to_call_log)
        (elim (Bool-cases (has_source call)) [
          | inl e' ↦ rw e' (refl, (refl, refl, refl))
          | inr e' ↦ rw e' (refl, tt)
        ])
]
