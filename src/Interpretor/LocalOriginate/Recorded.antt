-- ===== src/Interpretor/LocalOriginate/Recorded.antt =====
-- The recordings of an originated call carry no uuid, and what becomes of them in generator.py.
use wazo_call_logd.Common.{
  ℕ, ◌≡◌, refl, Bool, true, false, Option, none, some, List, [], ◌∷◌, String, map, ◌==◌, any, find,
  last?, keep, All, All-append, arith, Result, ok, raise, require, Returns, Returns-bind,
  Returns-if, ◌∙◌, type_error, key_error, if◌then◌else◌,
}
use wazo_call_logd.External.{External, Extra}
use wazo_call_logd.Common.Dict.{get}
use wazo_call_logd.Cel.{
  Cel, mixmonitor_start, mixmonitor_stop, chan_start, chan_end, answer, app_start, bridge_enter,
  is_event,
}
use wazo_call_logd.RawCallLog.{
  RawCallLog, Recording, update_participant, set_tenant_uuid, insert_or_update_participants_info,
}
use wazo_call_logd.Interpretor.Extra.{
  interpret_voicemail_app_start, parse_eventtime, extract_cel_extra,
  is_valid_mixmonitor_start_extra, is_valid_mixmonitor_stop_extra,
}
use wazo_call_logd.Interpretor.Recordings.{
  map_recordings, start_recording, stop_recordings, stop_at, end_if_open,
}
use wazo_call_logd.Interpretor.LocalOriginate.{
  Outcome, next, leave, fail, ◌>>=◌, run, or_leave, call_of, Channels, add_recordings, stop_all,
  originate_source, originate_recordings, originate_user_field, detect_voicemail, note_all_lines,
  first_three, originate_rest, close_open, of_type, is_cel_of, destination_channel,
  reach_destination, originate_destination, originate_direction, originate_all_lines,
  originate_interpret_cels,
}

-- `P` holds of the call that a statement goes on with or returns.
abbrev pub Holds : (RawCallLog → Type 0) → Outcome RawCallLog → Type 0
Holds P (next call) = P call
Holds P (leave call) = P call
Holds P (fail e) = Unit

module _ (P : RawCallLog → Type 0) where
  pub Holds-bind :
      (m : Outcome RawCallLog) (f : RawCallLog → Outcome RawCallLog)
      → Holds P m
      → ((c : RawCallLog) → P c → Holds P (f c))
      → Holds P (m >>= f)
  Holds-bind (next c) f h k = k c h
  Holds-bind (leave c) f h k = h
  Holds-bind (fail e) f h k = tt

  pub Holds-or_leave :
      {A : Type 0} (call : RawCallLog) (o : Option A) (f : A → Outcome RawCallLog)
      → P call
      → ((a : A) → Holds P (f a))
      → Holds P (or_leave call o >>= f)
  Holds-or_leave call none f h k = h
  Holds-or_leave call (some a) f h k = k a

  pub Holds-run :
      {A : Type 0} (m : Result A) (f : A → Outcome RawCallLog)
      → ((a : A) → m ≡ ok a → Holds P (f a))
      → Holds P (run m >>= f)
  Holds-run (ok a) f k = k a refl
  Holds-run (raise e) f k = tt

  pub Holds-if :
      (b : Bool) (m n : Outcome RawCallLog) → Holds P m → Holds P n → Holds P (if b then m else n)
  Holds-if true m n hm hn = hm
  Holds-if false m n hm hn = hn

  pub Holds-result : (m : Result RawCallLog) → Returns P m → Holds P (run m)
  Holds-result (ok c) h = h
  Holds-result (raise e) h = h

  pub Holds-Returns : (m : Outcome RawCallLog) → Holds P m → Returns P (call_of m)
  Holds-Returns (next c) h = h
  Holds-Returns (leave c) h = h
  Holds-Returns (fail x) h = h

-- No recording has a uuid.
abbrev pub Nameless : RawCallLog → Type 0
Nameless call = All (λ r. r.uuid ≡ none) call.recordings

start_recording-uuid :
    (ext : External) (cel : Cel) (e : Extra) (u : Option String) (r : Recording)
    → start_recording ext cel e u ≡ ok r
    → r.uuid ≡ u
unfolding start_recording
start_recording-uuid ext cel e u r h = ground arith

stop_at-uuid : (id : String) (t : ℕ) (r : Recording) → (stop_at id t r).uuid ≡ r.uuid
unfolding stop_at
stop_at-uuid id t r = ground arith

end_if_open-uuid : (t : ℕ) (r : Recording) → (end_if_open t r).uuid ≡ r.uuid
unfolding end_if_open
end_if_open-uuid t r = ground arith

map-Nameless :
    (f : Recording → Recording)
    → ((r : Recording) → (f r).uuid ≡ r.uuid)
    → (rs : List Recording) → All (λ r. r.uuid ≡ none) rs
    → All (λ r. r.uuid ≡ none) (map f rs)
map-Nameless f same_uuid [] h = tt
map-Nameless f same_uuid (r ∷ rs) h = (same_uuid r ∙ h.0, map-Nameless f same_uuid rs h.1)

stop_recordings-Nameless :
    (ext : External) (cel : Cel) (e : Extra) (call : RawCallLog)
    → Nameless call
    → Returns Nameless (stop_recordings ext cel e call)
unfolding stop_recordings
stop_recordings-Nameless ext cel e call h =
    Returns-bind Nameless (require key_error (get e "mixmonitor_id")) _ λ id _.
      Returns-if Nameless (any (λ r. r.mixmonitor_id == id) call.recordings) _ (ok call)
        (Returns-bind Nameless (parse_eventtime ext cel.eventtime)
          (λ t. ok (map_recordings (stop_at id t) call))
          λ t _. map-Nameless (stop_at id t) (stop_at-uuid id t) call.recordings h)
        h

end_open :
    (call : RawCallLog) (t : Option ℕ)
    → Nameless call
    → Nameless (elim t [ none ↦ call | some t ↦ map_recordings (end_if_open t) call ])
end_open call none h = h
end_open call (some t) h = map-Nameless (end_if_open t) (end_if_open-uuid t) call.recordings h

module _ (ext : External) where
  add_recordings-Nameless :
      (cels : List Cel) (call : RawCallLog)
      → Nameless call
      → Holds Nameless (add_recordings ext cels call)
  unfolding add_recordings
  add_recordings-Nameless [] call h = h
  add_recordings-Nameless (cel ∷ cels) call h =
      let extra = extract_cel_extra ext cel.extra in
      Holds-bind Nameless _ (add_recordings ext cels)
        (Holds-if Nameless (is_valid_mixmonitor_start_extra extra) _ _
          (Holds-run Nameless (require type_error extra) _ λ e _.
            Holds-run Nameless (start_recording ext cel e none) _ λ r started.
              All-append (λ s. s.uuid ≡ none) call.recordings (r ∷ []) h
                (start_recording-uuid ext cel e none r started, tt))
          h)
        (add_recordings-Nameless cels)

  stop_all-Nameless :
      (cels : List Cel) (call : RawCallLog)
      → Nameless call
      → Holds Nameless (stop_all ext cels call)
  unfolding stop_all
  stop_all-Nameless [] call h = h
  stop_all-Nameless (cel ∷ cels) call h =
      let extra = extract_cel_extra ext cel.extra in
      Holds-bind Nameless _ (stop_all ext cels)
        (Holds-if Nameless (is_valid_mixmonitor_stop_extra extra) _ _
          (Holds-run Nameless (require type_error extra) _
            λ e _. Holds-result Nameless _ (stop_recordings-Nameless ext cel e call h))
          h)
        (stop_all-Nameless cels)

  originate_source-Nameless :
      (channels : Channels) (cels : List Cel) (call : RawCallLog)
      → Nameless call
      → Holds Nameless (originate_source ext channels cels call)
  unfolding originate_source update_participant
  originate_source-Nameless channels cels call h =
      Holds-or_leave Nameless call (find (is_cel_of channels.local1 chan_start) cels) _ h λ start.
        Holds-or_leave Nameless call (find (is_cel_of channels.source_channel answer) cels) _ h
          λ answered.
            Holds-or_leave Nameless call (find (is_cel_of channels.source_channel chan_end) cels) _
              h
              λ ended.
                Holds-or_leave Nameless call (find (is_cel_of channels.local2 answer) cels) _ h
                  λ answered2. Holds-run Nameless (parse_eventtime ext start.eventtime) _ λ date _.
                    Holds-run Nameless (parse_eventtime ext ended.eventtime) _ λ date_end _. h

  originate_recordings-Nameless :
      (cels : List Cel) (call : RawCallLog)
      → Nameless call
      → Holds Nameless (originate_recordings ext cels call)
  unfolding originate_recordings
  originate_recordings-Nameless cels call h =
      Holds-bind Nameless (add_recordings ext (of_type mixmonitor_start cels) call)
        (λ c. stop_all ext (of_type mixmonitor_stop cels) c >>= close_open)
        (add_recordings-Nameless (of_type mixmonitor_start cels) call h)
        λ c hc.
          Holds-bind Nameless (stop_all ext (of_type mixmonitor_stop cels) c) close_open
            (stop_all-Nameless (of_type mixmonitor_stop cels) c hc)
            (λ d hd. end_open d d.date_end hd)

  reach_destination-Nameless :
      (cels : List Cel) (call : RawCallLog) (channel : Option String)
      → Nameless call
      → Holds Nameless
          (elim channel [ none ↦ next call | some c ↦ reach_destination ext cels call c ])
  unfolding reach_destination update_participant
  reach_destination-Nameless cels call none h = h
  reach_destination-Nameless cels call (some channel) h =
      Holds-or_leave Nameless call (find (is_cel_of channel answer) cels) _ h λ answered.
        Holds-or_leave Nameless call (last? (keep (is_cel_of channel bridge_enter) cels)) _ h
          λ entered. Holds-run Nameless (parse_eventtime ext entered.eventtime) _ λ time _. h

  originate_destination-Nameless :
      (channels : Channels) (cels : List Cel) (call : RawCallLog)
      → Nameless call
      → Holds Nameless (originate_destination ext channels cels call)
  unfolding originate_destination
  originate_destination-Nameless channels cels call h =
      reach_destination-Nameless cels call (destination_channel channels cels) h

detect_voicemail-recordings :
    (cels : List Cel) (call : RawCallLog)
    → (detect_voicemail cels call).recordings ≡ call.recordings
unfolding detect_voicemail interpret_voicemail_app_start
detect_voicemail-recordings [] call = refl
detect_voicemail-recordings (cel ∷ cels) call =
    detect_voicemail-recordings cels _ ∙ detected cel call (is_event cel.eventtype app_start)
  where
    detected :
        (cel : Cel) (call : RawCallLog) (b : Bool)
        → (if b then interpret_voicemail_app_start cel call else call).recordings ≡ call.recordings
    detected cel call true = ground (arith)
    detected cel call false = refl

originate_user_field-recordings :
    (channels : Channels) (cels : List Cel) (call : RawCallLog)
    → (originate_user_field channels cels call).recordings ≡ call.recordings
unfolding originate_user_field
originate_user_field-recordings channels cels call = ground arith

originate_direction-recordings :
    (cels : List Cel) (call : RawCallLog)
    → (originate_direction cels call).recordings ≡ call.recordings
unfolding originate_direction
originate_direction-recordings cels call = ground arith

originate_all_lines-recordings :
    (ext : External) (cels : List Cel) (call : RawCallLog)
    → (originate_all_lines ext cels call).recordings ≡ call.recordings
unfolding originate_all_lines note_all_lines update_participant set_tenant_uuid
    insert_or_update_participants_info
originate_all_lines-recordings ext cels call = ground arith

module _ (ext : External) (channels : Channels) (cels : List Cel) where
  originate_rest-Nameless :
      (call : RawCallLog) → Nameless call → Holds Nameless (originate_rest ext channels cels call)
  unfolding originate_rest
  originate_rest-Nameless call h =
      let described = detect_voicemail cels (originate_user_field channels cels call) in
      Holds-bind Nameless (originate_destination ext channels cels described)
        (λ c. next (originate_all_lines ext cels (originate_direction cels c)))
        (originate_destination-Nameless ext channels cels described
          (rw (detect_voicemail-recordings, originate_user_field-recordings) h))
        (λ c hc. rw (originate_all_lines-recordings, originate_direction-recordings) hc)

  originate_tail-Nameless :
      (call : RawCallLog)
      → Nameless call
      → Holds Nameless (originate_recordings ext cels call >>= originate_rest ext channels cels)
  originate_tail-Nameless call h =
      Holds-bind Nameless (originate_recordings ext cels call) (originate_rest ext channels cels)
        (originate_recordings-Nameless ext cels call h) originate_rest-Nameless

-- Whatever the CELs, the recordings of an originated call have no uuid.
pub originate_interpret_cels-Nameless :
    (ext : External) (cels : List Cel) (call : RawCallLog)
    → Nameless call
    → Returns Nameless (originate_interpret_cels ext cels call)
unfolding originate_interpret_cels
originate_interpret_cels-Nameless ext cels call h =
    Holds-Returns Nameless (or_leave call found >>= later) (
      Holds-or_leave Nameless call found later h λ channels.
        Holds-bind Nameless (originate_source ext channels cels call)
          (λ c. originate_recordings ext cels c >>= originate_rest ext channels cels)
          (originate_source-Nameless ext channels cels call h)
          (originate_tail-Nameless ext channels cels))
  where
    found : Option Channels
    found = first_three (map (λ c. c.uniqueid) (of_type chan_start cels))

    later : Channels → Outcome RawCallLog
    later channels = originate_source ext channels cels call >>= λ c.
        originate_recordings ext cels c >>= originate_rest ext channels cels
