-- ===== src/Cdr/OrderName.antt =====
-- The order of a list by its name: the fields of CDRSchema and `map_order_field` of
-- plugins/cdr/schemas.py, the attributes of CallLog in database/models.py, and how
-- `find_all_in_period` of database/queries/call_log.py looks them up.
use wazo_call_logd.Common.{
  Bool, true, false, not, ◌||◌, Option, none, some, List, [], ◌∷◌, String, ◌==◌, map, elem, keep,
  filled, Result, ok, raise, attribute_error, key_error, require, ◌>>=◌, if◌then◌else◌,
}
use wazo_call_logd.Common.Dict.{Dict, get}

-- How an attribute of the class CallLog is declared.
pub data Attribute : Type 0 where
  column relationship association_proxy hybrid_property property : Attribute

-- The attributes of the class CallLog, in the order of the file.
abbrev pub call_log_attributes : Dict Attribute
call_log_attributes =
    ("id", column)
    ∷ ("date", column)
    ∷ ("date_answer", column)
    ∷ ("date_end", column)
    ∷ ("tenant_uuid", column)
    ∷ ("source_name", column)
    ∷ ("source_exten", column)
    ∷ ("source_internal_name", column)
    ∷ ("source_internal_exten", column)
    ∷ ("source_internal_context", column)
    ∷ ("source_line_identity", column)
    ∷ ("requested_name", column)
    ∷ ("requested_exten", column)
    ∷ ("requested_context", column)
    ∷ ("requested_internal_exten", column)
    ∷ ("requested_internal_context", column)
    ∷ ("destination_name", column)
    ∷ ("destination_exten", column)
    ∷ ("destination_internal_exten", column)
    ∷ ("destination_internal_context", column)
    ∷ ("destination_line_identity", column)
    ∷ ("blocked", column)
    ∷ ("reached_voicemail", column)
    ∷ ("direction", column)
    ∷ ("user_field", column)
    ∷ ("conversation_id", column)
    ∷ ("recordings", relationship)
    ∷ ("participants", relationship)
    ∷ ("participant_user_uuids", association_proxy)
    ∷ ("source_participant", relationship)
    ∷ ("source_user_uuid", association_proxy)
    ∷ ("source_line_id", association_proxy)
    ∷ ("destination_details", relationship)
    ∷ ("destination_details_dict", property)
    ∷ ("destination_participant", relationship)
    ∷ ("destination_user_uuid", association_proxy)
    ∷ ("destination_line_id", association_proxy)
    ∷ ("requested_user_uuid", hybrid_property)
    ∷ []

-- The fields of CDRSchema with their `attribute`.
abbrev pub cdr_fields : Dict (Option String)
cdr_fields =
    ("id", none)
    ∷ ("tenant_uuid", none)
    ∷ ("start", some "date")
    ∷ ("end", some "date_end")
    ∷ ("answered", some "marshmallow_answered")
    ∷ ("answer", some "date_answer")
    ∷ ("duration", some "marshmallow_duration")
    ∷ ("call_direction", some "direction")
    ∷ ("call_status", some "marshmallow_call_status")
    ∷ ("conversation_id", none)
    ∷ ("destination_details", some "destination_details_dict")
    ∷ ("destination_extension", some "destination_exten")
    ∷ ("destination_internal_context", none)
    ∷ ("destination_internal_extension", some "destination_internal_exten")
    ∷ ("destination_line_id", none)
    ∷ ("destination_name", none)
    ∷ ("destination_user_uuid", none)
    ∷ ("requested_name", none)
    ∷ ("requested_context", none)
    ∷ ("requested_extension", some "requested_exten")
    ∷ ("requested_internal_context", none)
    ∷ ("requested_internal_extension", some "requested_internal_exten")
    ∷ ("requested_user_uuid", none)
    ∷ ("source_extension", some "source_exten")
    ∷ ("source_internal_context", none)
    ∷ ("source_internal_name", none)
    ∷ ("source_internal_extension", some "source_internal_exten")
    ∷ ("source_line_id", none)
    ∷ ("source_name", none)
    ∷ ("source_user_uuid", none)
    ∷ ("tags", some "marshmallow_tags")
    ∷ ("recordings", none)
    ∷ []

-- `set(CDRSchema().fields) - {'end', 'tags', 'recordings'}`
unfoldable pub order_names : List String
order_names =
    keep (λ name. not (elem name ("end" ∷ "tags" ∷ "recordings" ∷ []))) (map (λ f. f.0) cdr_fields)

-- The name itself, where the field has no attribute or an empty one.
abbrev pub or_name : String → Option String → String
or_name name none = name
or_name name (some attribute) = if filled attribute then attribute else name

-- `map_order_field`
unfoldable pub map_order_field : String → Result String
unfolding get
map_order_field name = do
  attribute ← require key_error (get cdr_fields name)
  ok (or_name name attribute)

-- What a list is ordered by: an expression that the DAO writes out, or an attribute of CallLog.
pub data OrderKey : Type 0 where
  answered_duration answer_date call_status_rank : OrderKey
  class_attribute : String → Attribute → OrderKey

-- `.desc()` and `.asc()`; a property has neither, and SQLAlchemy answers for the others
abbrev pub expression_of : String → Attribute → Result OrderKey
expression_of name property = raise attribute_error
expression_of name a = ok (class_attribute name a)

-- `getattr(CallLog, name)`, with its direction
unfoldable pub class_order : String → Result OrderKey
unfolding get
class_order name = require attribute_error (get call_log_attributes name) >>= expression_of name

-- The choice of `order_field` in `find_all_in_period`, where a direction is given.
unfoldable pub order_field : String → Result OrderKey
unfolding class_order
order_field order =
    if order == "marshmallow_duration"
    then ok answered_duration
    else if order == "marshmallow_answered"
    then ok answer_date
    else if order == "marshmallow_call_status"
    then ok call_status_rank
    else class_order order

-- The order of a request, from its name to the query.
unfoldable pub ordered_by : String → Result OrderKey
unfolding map_order_field order_field
ordered_by name = do order ← map_order_field name; order_field order

-- Something that rows can be compared by, not a property or the rows of another table.
abbrev pub is_sortable : OrderKey → Bool
is_sortable (class_attribute name relationship) = false
is_sortable (class_attribute name property) = false
is_sortable k = true

abbrev is_ordered : Result OrderKey → Bool
is_ordered (ok k) = is_sortable k
is_ordered (raise e) = false

-- Whether the list can be ordered by that name, or is the name that cannot.
abbrev is_settled : String → Bool
unfolding ordered_by
is_settled name = name == "destination_details" || is_ordered (ordered_by name)
