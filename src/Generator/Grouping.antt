-- ===== src/Generator/Grouping.antt =====
-- generator.py: `_group_cels_by_shared_channels`. A set is the list of its members.
pub mod Members
pub mod Channels
pub mod Bridged
use wazo_call_logd.Common.{
  Bool, true, false, not, ◌||◌, List, [], ◌∷◌, ◌++◌, String, ◌==◌, map, leb, any, all, elem, insert,
  insert_all, Result, ok, raise, type_error, if◌then◌else◌,
}
use wazo_call_logd.Common.Sort.{sort, text_leb}
use wazo_call_logd.Cel.{Cel, EventTime, datetime, iso}

pub record Sequence : Type 0 where
  pub linkedid : String
  pub cels : List Cel

pub record Group : Type 0 where
  pub uniqueids : List String
  pub linkedids : List String
  pub cels : List Cel

-- `groupby(cels, key=attrgetter('linkedid'))`: runs of neighbours with one linkedid
unfoldable pub add_to_runs : Cel → List Sequence → List Sequence
add_to_runs cel [] = record { linkedid = cel.linkedid; cels = cel ∷ [] } ∷ []
add_to_runs cel (s ∷ ss) =
    if cel.linkedid == s.linkedid
    then record s { cels = cel ∷ s.cels } ∷ ss
    else record { linkedid = cel.linkedid; cels = cel ∷ [] } ∷ s ∷ ss

unfoldable pub runs : List Cel → List Sequence
unfolding add_to_runs
runs [] = []
runs (cel ∷ cels) = add_to_runs cel (runs cels)

unfoldable pub linkedid_sequences : List Cel → List Sequence
unfolding sort text_leb runs
linkedid_sequences cels = runs (sort (λ a b. text_leb a.linkedid b.linkedid) cels)

-- `{cel.uniqueid for cel in cels}`
abbrev pub channels_of : List Cel → List String
channels_of cels = insert_all (map (λ c. c.uniqueid) cels) []

-- `uniqueids & correlated_uniqueids` is not empty
unfoldable pub shares : Sequence → Group → Bool
shares s g = any (λ u. elem u g.uniqueids) (channels_of s.cels)

unfoldable pub join : Sequence → Group → Group
join s g = record {
  uniqueids = insert_all (channels_of s.cels) g.uniqueids;
  linkedids = insert s.linkedid g.linkedids;
  cels = g.cels ++ s.cels;
}

abbrev pub new_group : Sequence → Group
new_group s = record { uniqueids = channels_of s.cels; linkedids = s.linkedid ∷ []; cels = s.cels }

-- The inner loop: the sequence joins every group that it shares a channel with.
unfoldable pub join_all : Sequence → List Group → List Group
unfolding shares join
join_all s [] = []
join_all s (g ∷ gs) = (if shares s g then join s g else g) ∷ join_all s gs

-- One round of the outer loop: a sequence that joined none begins a group.
unfoldable pub correlate : Sequence → List Group → List Group
unfolding join_all shares
correlate s gs = if any (shares s) gs then join_all s gs else gs ++ new_group s ∷ []

unfoldable pub correlate_all : List Sequence → List Group → List Group
unfolding correlate
correlate_all [] gs = gs
correlate_all (s ∷ ss) gs = correlate_all ss (correlate s gs)

abbrev pub is_datetime : Cel → Bool
is_datetime cel = elim cel.eventtime [ datetime _ ↦ true | iso _ ↦ false ]

-- `a.eventtime <= b.eventtime`, for times of one kind
unfoldable pub time_leb : EventTime → EventTime → Bool
unfolding text_leb
time_leb (datetime a) (datetime b) = leb a b
time_leb (iso a) (iso b) = text_leb a b
time_leb (datetime a) (iso b) = true
time_leb (iso a) (datetime b) = false

-- `sorted(cels, key=attrgetter('eventtime'))`: to compare a datetime with a text is a TypeError
unfoldable pub sort_by_time : List Cel → Result (List Cel)
unfolding time_leb sort
sort_by_time cels =
    if all is_datetime cels || all (λ c. not (is_datetime c)) cels
    then ok (sort (λ a b. time_leb a.eventtime b.eventtime) cels)
    else raise type_error

unfoldable pub group_cels_by_shared_channels : List Cel → List Group
unfolding linkedid_sequences correlate_all
group_cels_by_shared_channels cels = correlate_all (linkedid_sequences cels) []
