-- ===== src/Cdr/Filters.antt =====
-- database/queries/call_log.py: `_apply_filters` and `_apply_user_filter`, as conditions on a row. A
-- parameter that Python counts as false sets no condition.
use Prim.Native.Char.{Char, code}
use wazo_call_logd.Common.{
  ℕ, Bool, true, false, not, ◌&&◌, ◌||◌, Option, none, some, List, [], ◌∷◌, ◌++◌, String, ◌==◌, ltb,
  leb, eqb, any, all, elem, filled, is_empty, if◌then◌else◌,
}
use wazo_call_logd.Common.Text.{chars, string}
use wazo_call_logd.Common.Sql.{selects, compared}
use wazo_call_logd.RawCallLog.{Direction, internal, inbound, outbound}
use wazo_call_logd.Cdr.Rows.{Cdr, Party, has_source_role, destination_user_uuid}
use wazo_call_logd.Cdr.Status.{StatusFilter, filter_status}

-- What the database decides: pattern matching, the collation of texts, and which texts the type of a
-- uuid column accepts.
pub record Database : Type 0 where
  -- `text LIKE pattern` and `text ILIKE pattern`, the pattern first
  pub like : String → String → Bool
  pub ilike : String → String → Bool
  pub text_le : String → String → Bool
  pub is_uuid : String → Bool

-- The attribute that a list is ordered by; `getattr(CallLog, name)` is a number, a date or a text.
pub data OrderField : Type 0 where
  marshmallow_duration marshmallow_answered marshmallow_call_status : OrderField
  number_column : (Cdr → Option ℕ) → OrderField
  text_column : (Cdr → Option String) → OrderField

pub data OrderDirection : Type 0 where
  asc desc : OrderDirection

-- `ListParams`. A missing number, text or date is `none`; an empty list sets no condition.
pub record ListParams : Type 0 where
  pub search : Option String
  pub order : Option OrderField
  pub direction : Option OrderDirection
  pub limit : Option ℕ
  pub offset : Option ℕ
  pub distinct_peer_exten : Bool
  pub start : Option ℕ
  pub end : Option ℕ
  pub call_direction : Option Direction
  pub call_status : Option StatusFilter
  pub id : Option ℕ
  pub start_id : Option ℕ
  pub cdr_ids : List ℕ
  pub number : Option String
  pub tags : List String
  pub tenant_uuids : List String
  pub me_user_uuid : Option String
  pub user_uuids : List String
  pub terminal_user_uuids : List String
  pub recorded : Option Bool
  pub conversation_id : Option String
  pub requested_internal_exten : Option String
  pub requested_internal_context : Option String

abbrev pub no_params : ListParams
no_params = record {
  search = none;
  order = none;
  direction = none;
  limit = none;
  offset = none;
  distinct_peer_exten = false;
  start = none;
  end = none;
  call_direction = none;
  call_status = none;
  id = none;
  start_id = none;
  cdr_ids = [];
  number = none;
  tags = [];
  tenant_uuids = [];
  me_user_uuid = none;
  user_uuids = [];
  terminal_user_uuids = [];
  recorded = none;
  conversation_id = none;
  requested_internal_exten = none;
  requested_internal_context = none;
}

-- `if value := params.get(name)`, for texts, for numbers and for lists
abbrev pub when_text : Option String → (String → Bool) → Bool
when_text none test = true
when_text (some s) test = if filled s then test s else true

abbrev pub when {ℓ} : {A : Type ℓ} → Option A → (A → Bool) → Bool
when none test = true
when (some a) test = test a

abbrev pub when_number : Option ℕ → (ℕ → Bool) → Bool
when_number none test = true
when_number (some n) test = if eqb n 0 then true else test n

abbrev pub when_any {ℓ} : {A : Type ℓ} → List A → (List A → Bool) → Bool
when_any [] test = true
when_any (x ∷ xs) test = test (x ∷ xs)

abbrev same_direction : Direction → Direction → Bool
same_direction internal internal = true
same_direction inbound inbound = true
same_direction outbound outbound = true
same_direction _ _ = false

-- `CallLog.participants.any(user_uuid == uuid)`
abbrev pub has_user : Cdr → String → Bool
has_user c uuid = any (λ (p : Party). p.user_uuid == uuid) c.participants

-- `f'%{search}%'`
unfoldable pub containing : String → String
containing search = string (chars "%" ++ (chars search ++ chars "%"))

-- Every character with the code `n` is replaced.
unfoldable pub replace_code : ℕ → List Char → List Char → List Char
replace_code n new [] = []
replace_code n new (c ∷ cs) =
    let rest = replace_code n new cs in if eqb (code c) n then new ++ rest else c ∷ rest

-- `number.replace('_', '%')`
unfoldable pub wildcard : String → String
unfolding replace_code
wildcard number = string (replace_code 95 (chars "%") (chars number))

-- some of the columns match; NULL does not
abbrev some_column : (String → Bool) → List (Option String) → Bool
some_column test columns = any (λ column. selects (compared test column)) columns

-- the source, or the destination that answered
unfoldable pub terminal_user : List String → Cdr → Bool
unfolding destination_user_uuid
terminal_user uuids c =
    any (λ (p : Party). has_source_role p && elem p.user_uuid uuids) c.participants
    || selects (compared (λ u. elem u uuids) (destination_user_uuid c))

abbrev pub recorded_as : Cdr → Bool → Bool
recorded_as c b = if b then not (is_empty c.recordings) else is_empty c.recordings

module _ (db : Database) (params : ListParams) where
  open params use {
    search, number, tags, tenant_uuids, me_user_uuid, user_uuids, terminal_user_uuids, recorded,
    conversation_id, call_status, call_direction, cdr_ids, start, end, start_id,
  }

  unfoldable pub apply_user_filter : Cdr → Bool
  apply_user_filter c = when_text me_user_uuid (has_user c)

  -- date, direction and identity of the call
  unfoldable pub match_call : Cdr → Bool
  match_call c =
      when start (λ t. leb t c.date)
      && when end (λ t. ltb c.date t)
      && when call_direction (same_direction c.direction)
      && when_any cdr_ids (any (eqb c.id))
      && when params.id (eqb c.id)
      && when_number start_id (λ n. leb n c.id)
      && when_text conversation_id (λ s. selects (compared (λ t. t == s) c.conversation_id))

  -- texts and numbers
  unfoldable pub match_texts : Cdr → Bool
  unfolding containing wildcard
  match_texts c =
      when_text search (λ s.
        some_column (db.ilike (containing s))
          (c.source_name ∷ c.source_exten ∷ c.destination_name ∷ c.destination_exten ∷ []))
      && when_text number
          (λ s. some_column (db.like (wildcard s)) (c.source_exten ∷ c.destination_exten ∷ []))

  -- who takes part, and whose call it is
  unfoldable pub match_parties : Cdr → Bool
  unfolding terminal_user
  match_parties c =
      all (λ tag. any (λ (p : Party). elem tag p.tags) c.participants) tags
      && when_any tenant_uuids (elem c.tenant_uuid)
      && when_text me_user_uuid (has_user c)
      && when_any user_uuids (any (has_user c))
      && when_any terminal_user_uuids (λ uuids. terminal_user uuids c)

  unfoldable pub match_state : Cdr → Bool
  unfolding filter_status
  match_state c =
      when recorded (recorded_as c) && when call_status (λ s. selects (filter_status s c))

  unfoldable pub apply_filters : Cdr → Bool
  unfolding match_call match_texts match_parties match_state
  apply_filters c = match_call c && match_texts c && match_parties c && match_state c

-- Whether the uuids of the conditions can be bound: another text in place of a uuid raises
-- StatementError when the query runs.
unfoldable pub can_bind : Database → ListParams → Bool
can_bind db params =
    all db.is_uuid params.tenant_uuids
    && when_text params.me_user_uuid db.is_uuid
    && all db.is_uuid params.user_uuids
    && all db.is_uuid params.terminal_user_uuids
