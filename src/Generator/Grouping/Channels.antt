-- ===== src/Generator/Grouping/Channels.antt =====
-- What the sets of a group are.
use wazo_call_logd.Common.{
  ◌≡◌, refl, List, [], ◌∷◌, String, ◌==◌, eq_iff, map, elem, elem-insert, elem-insert_all, any,
  any-append, All, All-append, Bool-cases, inl, inr, arith,
}
use wazo_call_logd.Common.Sort.{sort, text_leb}
use wazo_call_logd.Cel.{Cel}
use wazo_call_logd.Generator.Grouping.{
  Sequence, Group, add_to_runs, runs, linkedid_sequences, channels_of, shares, join, new_group,
  join_all, correlate, correlate_all, group_cels_by_shared_channels,
}

-- The sets of a group hold the uniqueids, and the linkedids, of its CELs and nothing else.
pub record IsExact (g : Group) : Type 0 where
  pub channels : (u : String) → elem u g.uniqueids ≡ any (λ c. c.uniqueid == u) g.cels
  pub links : (l : String) → elem l g.linkedids ≡ any (λ c. c.linkedid == l) g.cels

-- A run: its CELs, one at least, have its linkedid.
pub record IsRun (s : Sequence) : Type 0 where
  pub links : (l : String) → any (λ c. c.linkedid == l) s.cels ≡ (s.linkedid == l)

add_to_runs-IsRun : (cel : Cel) (ss : List Sequence) → All IsRun ss → All IsRun (add_to_runs cel ss)
unfolding add_to_runs
add_to_runs-IsRun cel [] h = (record { links = λ l. ground arith }, tt)
add_to_runs-IsRun cel (s ∷ ss) h = elim (Bool-cases (cel.linkedid == s.linkedid)) [
  | inl e ↦
      rw e
        (record { links = λ l. ground (arith, h.0.links l, eq_iff cel.linkedid s.linkedid) }, h.1)
  | inr e ↦ rw e (record { links = λ l. ground arith }, h)
]

runs-IsRun : (cels : List Cel) → All IsRun (runs cels)
unfolding runs
runs-IsRun [] = tt
runs-IsRun (cel ∷ cels) = add_to_runs-IsRun cel (runs cels) (runs-IsRun cels)

elem-map_uniqueid :
    (u : String) (cels : List Cel)
    → elem u (map (λ c. c.uniqueid) cels) ≡ any (λ c. c.uniqueid == u) cels
elem-map_uniqueid u [] = refl
elem-map_uniqueid u (c ∷ cels) = ground (arith, elem-map_uniqueid u cels)

elem-channels_of :
    (u : String) (cels : List Cel) → elem u (channels_of cels) ≡ any (λ c. c.uniqueid == u) cels
elem-channels_of u cels =
    ground (arith, elem-insert_all u (map (λ c. c.uniqueid) cels) [], elem-map_uniqueid u cels)

new_group-IsExact : (s : Sequence) → IsRun s → IsExact (new_group s)
new_group-IsExact s h = record {
  channels = λ u. elem-channels_of u s.cels;
  links = λ l. ground (arith, h.links l);
}

join-IsExact : (s : Sequence) (g : Group) → IsRun s → IsExact g → IsExact (join s g)
unfolding join
join-IsExact s g h k = record {
  channels = λ u. ground (
    arith,
    elem-insert_all u (channels_of s.cels) g.uniqueids,
    elem-channels_of u s.cels,
    k.channels u,
    any-append (λ c. c.uniqueid == u) g.cels s.cels,
  );
  links = λ l. ground (
    arith,
    elem-insert l s.linkedid g.linkedids,
    h.links l,
    k.links l,
    any-append (λ c. c.linkedid == l) g.cels s.cels,
  );
}

join_all-IsExact :
    (s : Sequence) (gs : List Group) → IsRun s → All IsExact gs → All IsExact (join_all s gs)
unfolding join_all
join_all-IsExact s [] h k = tt
join_all-IsExact s (g ∷ gs) h k = elim (Bool-cases (shares s g)) [
  | inl e ↦ rw e (join-IsExact s g h k.0, join_all-IsExact s gs h k.1)
  | inr e ↦ rw e (k.0, join_all-IsExact s gs h k.1)
]

correlate_all-IsExact :
    (ss : List Sequence) (gs : List Group)
    → All IsRun ss
    → All IsExact gs
    → All IsExact (correlate_all ss gs)
unfolding correlate_all correlate
correlate_all-IsExact [] gs h k = k
correlate_all-IsExact (s ∷ ss) gs h k = elim (Bool-cases (any (shares s) gs)) [
  | inl e ↦ rw e (correlate_all-IsExact ss _ h.1 (join_all-IsExact s gs h.0 k))
  | inr e ↦ rw e (
      correlate_all-IsExact ss _ h.1
        (All-append IsExact gs (new_group s ∷ []) k (new_group-IsExact s h.0, tt)))
]

-- In every group of a batch the set of channels holds the uniqueids of the group's CELs, and the
-- set of linkedids their linkedids, and nothing else.
pub group_cels-IsExact : (cels : List Cel) → All IsExact (group_cels_by_shared_channels cels)
unfolding group_cels_by_shared_channels linkedid_sequences
group_cels-IsExact cels =
    correlate_all-IsExact (linkedid_sequences cels) []
      (runs-IsRun (sort (λ a b. text_leb a.linkedid b.linkedid) cels)) tt
