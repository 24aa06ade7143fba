-- ===== src/Cdr/Query.antt =====
-- database/queries/call_log.py: the queries of CallLogDAO over the rows of the table, in the order
-- in which the database returns them without an ORDER BY.
pub mod Counts
pub mod Listed
use wazo_call_logd.Common.{
  ℕ, Bool, not, ◌&&◌, Option, none, some, List, [], ◌∷◌, ◌++◌, String, ◌==◌, ltb, eqb, same,
  is_some, keep, find, length, Result, ok, raise, ◌>>=◌, attribute_error, if◌then◌else◌,
}
use wazo_call_logd.Common.Sql.{selects, compared, take, drop}
use wazo_call_logd.Common.Sort.{sort}
use wazo_call_logd.Cdr.Rows.{Cdr, Party, peer_exten}
use wazo_call_logd.Cdr.Status.{default_call_status}
use wazo_call_logd.Cdr.Filters.{
  Database, ListParams, no_params, when_text, apply_filters, apply_user_filter,
}
use wazo_call_logd.Cdr.Order.{row_le}

-- A group of the GROUP BY: a user and the other side's extension. NULLs are one group.
abbrev pub PeerGroup : Type 0
PeerGroup = String × Option String

abbrev pub same_peer_group : PeerGroup → PeerGroup → Bool
same_peer_group (u, e) (v, f) = u == v && same e f

abbrev pub groups_in : Cdr → List Party → List (PeerGroup × ℕ)
unfolding peer_exten
groups_in c [] = []
groups_in c (p ∷ ps) = ((p.user_uuid, peer_exten c p), c.id) ∷ groups_in c ps

-- the rows of CallLogParticipant, as their group and their `call_log_id`
unfoldable pub participant_rows : List Cdr → List (PeerGroup × ℕ)
participant_rows [] = []
participant_rows (c ∷ cs) = groups_in c c.participants ++ participant_rows cs

-- One more row: `func.max(call_log_id)` of its group.
unfoldable pub raise_max : PeerGroup → ℕ → List (PeerGroup × ℕ) → List (PeerGroup × ℕ)
raise_max g n [] = (g, n) ∷ []
raise_max g n ((h, m) ∷ rest) =
    if same_peer_group g h
    then (h, if ltb m n then n else m) ∷ rest
    else (h, m) ∷ raise_max g n rest

unfoldable pub max_ids : List (PeerGroup × ℕ) → List (PeerGroup × ℕ)
unfolding raise_max
max_ids [] = []
max_ids ((g, n) ∷ rows) = raise_max g n (max_ids rows)

-- one copy of the call for each group of which it is the last
abbrev pub copies : Cdr → List (PeerGroup × ℕ) → List Cdr
copies c [] = []
copies c ((g, m) ∷ rest) = let more = copies c rest in if eqb c.id m then c ∷ more else more

abbrev pub join_max : List Cdr → List (PeerGroup × ℕ) → List Cdr
join_max [] maxima = []
join_max (c ∷ cs) maxima = copies c maxima ++ join_max cs maxima

-- the rows before any filter: the whole table, or the last call of each group
unfoldable pub candidates : List Cdr → ListParams → List Cdr
unfolding max_ids participant_rows
candidates table params =
    if params.distinct_peer_exten then join_max table (max_ids (participant_rows table)) else table

abbrev pub equals_text : Option String → String → Bool
equals_text column s = selects (compared (λ t. t == s) column)

unfoldable pub requested_internal : ListParams → Cdr → Bool
requested_internal params c =
    when_text params.requested_internal_exten (equals_text c.requested_internal_exten)
    && when_text params.requested_internal_context (equals_text c.requested_internal_context)

-- each row once, at its first place
unfoldable pub unique : List Cdr → List Cdr
unique [] = []
unique (c ∷ cs) = c ∷ keep (λ d. not (eqb c.id d.id)) (unique cs)

abbrev pub limited : Option ℕ → List Cdr → List Cdr
limited none rows = rows
limited (some n) rows = if eqb n 0 then rows else take n rows

abbrev pub skipped : Option ℕ → List Cdr → List Cdr
skipped none rows = rows
skipped (some n) rows = if eqb n 0 then rows else drop n rows

-- the page: a limit or an offset that is 0 is not set
unfoldable pub page : ListParams → List Cdr → List Cdr
page params rows = limited params.limit (skipped params.offset rows)

module _ (db : Database) where
  unfoldable pub matches : ListParams → Cdr → Bool
  unfolding requested_internal apply_user_filter apply_filters
  matches params c =
      requested_internal params c && apply_user_filter db params c && apply_filters db params c

  -- `_list_query`
  unfoldable pub list_query : List Cdr → ListParams → List Cdr
  unfolding candidates matches
  list_query table params = keep (matches params) (candidates table params)

  -- `order_field`, and a direction without an order, which `None` has no method for
  unfoldable pub ordered : ListParams → List Cdr → Result (List Cdr)
  unfolding sort row_le
  ordered params rows = elim params.order [
    | some field ↦ ok (sort (row_le db field params.direction) rows)
    | none ↦ elim params.direction [ none ↦ ok rows | some _ ↦ raise attribute_error ]
  ]

  unfoldable pub find_all_in_period : List Cdr → ListParams → Result (List Cdr)
  unfolding list_query ordered page unique
  find_all_in_period table params = do
    rows ← ordered params (list_query table params)
    ok (unique (page params rows))

  -- `count_params`
  unfoldable pub count_params : ListParams → ListParams
  count_params params = record no_params {
    tenant_uuids = params.tenant_uuids;
    me_user_uuid = params.me_user_uuid;
  }

  -- `params.setdefault('call_status', DEFAULT_CALL_STATUS)`
  unfoldable pub set_default_status : ListParams → ListParams
  set_default_status params =
      if is_some params.call_status
      then params
      else record params { call_status = some default_call_status }

  -- `count_in_period`: the total, the filtered, and the parameters, which the caller shares
  unfoldable pub count_in_period : List Cdr → ListParams → ℕ × ℕ × ListParams
  unfolding list_query count_params set_default_status unique apply_user_filter apply_filters
  count_in_period table params =
      let scoped = keep (apply_user_filter db params) table in
      let total = length (keep (apply_filters db (count_params params)) scoped) in
      let params' = set_default_status params in
      (total, length (unique (list_query table params')), params')

  -- `get_by_id`; its uuids come from wazo-auth and can be bound
  unfoldable pub get_by_id : List Cdr → ℕ → List String → List String → Option Cdr
  unfolding apply_filters
  get_by_id table cdr_id tenant_uuids user_uuids =
      let filters = record no_params { tenant_uuids = tenant_uuids; user_uuids = user_uuids } in
      find (λ c. apply_filters db filters c && eqb c.id cdr_id) table
