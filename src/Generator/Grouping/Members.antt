-- ===== src/Generator/Grouping/Members.antt =====
-- Grouping loses no CEL and invents none.
use wazo_call_logd.Common.{◌≡◌, refl, ◌∙◌, Bool, ◌||◌, ◌&&◌, List, [], ◌∷◌, any, any-append, arith}
use wazo_call_logd.Common.Sort.{any-sort, text_leb}
use wazo_call_logd.Cel.{Cel}
use wazo_call_logd.Generator.Grouping.{
  Sequence, Group, add_to_runs, runs, linkedid_sequences, shares, join, new_group, join_all,
  correlate, correlate_all, group_cels_by_shared_channels,
}

module _ (p : Cel → Bool) where
  abbrev pub some_in_groups : List Group → Bool
  some_in_groups = any (λ g. any p g.cels)

  abbrev some_in_sequences : List Sequence → Bool
  some_in_sequences = any (λ s. any p s.cels)

  any-add_to_runs :
      (cel : Cel) (ss : List Sequence)
      → some_in_sequences (add_to_runs cel ss) ≡ (p cel || some_in_sequences ss)
  unfolding add_to_runs
  any-add_to_runs cel [] = ground arith
  any-add_to_runs cel (s ∷ ss) = ground arith

  any-runs : (cels : List Cel) → some_in_sequences (runs cels) ≡ any p cels
  unfolding runs
  any-runs [] = refl
  any-runs (cel ∷ cels) = ground (arith, any-add_to_runs cel (runs cels), any-runs cels)

  -- A sequence that shares a channel with some group is found in the groups that it joins.
  any-join_all :
      (s : Sequence) (gs : List Group)
      → some_in_groups (join_all s gs) ≡ (some_in_groups gs || any (shares s) gs && any p s.cels)
  unfolding join_all join
  any-join_all s [] = refl
  any-join_all s (g ∷ gs) = ground (arith, any-join_all s gs, any-append p g.cels s.cels)

  any-correlate :
      (s : Sequence) (gs : List Group)
      → some_in_groups (correlate s gs) ≡ (some_in_groups gs || any p s.cels)
  unfolding correlate
  any-correlate s gs =
      ground (arith, any-join_all s gs, any-append (λ g. any p g.cels) gs (new_group s ∷ []))

  any-correlate_all :
      (ss : List Sequence) (gs : List Group)
      → some_in_groups (correlate_all ss gs) ≡ (some_in_groups gs || some_in_sequences ss)
  unfolding correlate_all
  any-correlate_all [] gs = ground arith
  any-correlate_all (s ∷ ss) gs =
      ground (arith, any-correlate_all ss (correlate s gs), any-correlate s gs)

-- Whatever is asked of a CEL, some group holds one that meets it exactly when the batch does: no
-- CEL is lost, and none is added.
pub any-group_cels :
    (p : Cel → Bool) (cels : List Cel)
    → some_in_groups p (group_cels_by_shared_channels cels) ≡ any p cels
unfolding group_cels_by_shared_channels linkedid_sequences
any-group_cels p cels =
    any-correlate_all p (linkedid_sequences cels) []
    ∙ any-runs p _
    ∙ any-sort (λ a b. text_leb a.linkedid b.linkedid) p cels
