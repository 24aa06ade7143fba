-- ===== src/Generator/Grouping/Bridged.antt =====
-- A sequence that shares channels with two groups.
use wazo_call_logd.Common.{
  ◌≡◌, refl, ◌∙◌, Bool, true, false, ◌||◌, List, [], ◌∷◌, ◌++◌, String, ◌==◌, eq_iff, map, any,
  any-append, elem, insert, insert_all, elem-insert_all, arith, Bool-cases, inl, inr,
}
use wazo_call_logd.Cel.{Cel}
use wazo_call_logd.Generator.Grouping.{
  Sequence, Group, shares, join, channels_of, new_group, join_all, correlate, correlate_all,
}

-- A CEL of one sequence is on the channel of a CEL of the other.
abbrev pub meets : Sequence → Sequence → Bool
meets s t = any (λ (x : Cel). any (λ (y : Cel). x.uniqueid == y.uniqueid) t.cels) s.cels

any-member :
    (p : String → Bool) (s : String) (ts : List String)
    → elem s ts ≡ true
    → p s ≡ true
    → any p ts ≡ true
any-member p s [] h e = cc
any-member p s (t ∷ ts) h e = ground (arith, h, e, any-member p s ts, eq_iff t s)

any-insert :
    (p : String → Bool) (s : String) (ts : List String) → any p (insert s ts) ≡ (p s || any p ts)
any-insert p s ts = elim (Bool-cases (elem s ts)) [
  | inl e ↦ ground (arith, e, any-member p s ts e)
  | inr e ↦ ground (arith, e, any-append p ts (s ∷ []))
]

any-insert_all :
    (p : String → Bool) (xs ts : List String) → any p (insert_all xs ts) ≡ (any p xs || any p ts)
any-insert_all p [] ts = refl
any-insert_all p (x ∷ xs) ts = ground (arith, any-insert_all p xs (insert x ts), any-insert p x ts)

elem-uniqueids :
    (u : String) (cels : List Cel)
    → elem u (map (λ c. c.uniqueid) cels) ≡ any (λ (y : Cel). u == y.uniqueid) cels
elem-uniqueids u [] = refl
elem-uniqueids u (c ∷ cels) =
    ground (arith, elem-uniqueids u cels, eq_iff u c.uniqueid, eq_iff c.uniqueid u)

shares-meets : (s t : Sequence) → shares s (new_group t) ≡ meets s t
unfolding shares
shares-meets s t =
    any-insert_all (λ u. elem u (channels_of t.cels)) (map (λ c. c.uniqueid) s.cels) []
    ∙ each s.cels
  where
    each :
        (cels : List Cel)
        → (any (λ u. elem u (channels_of t.cels)) (map (λ c. c.uniqueid) cels) || false)
          ≡ any (λ (x : Cel). any (λ (y : Cel). x.uniqueid == y.uniqueid) t.cels) cels
    each [] = refl
    each (c ∷ cels) = ground (
      arith,
      each cels,
      elem-insert_all c.uniqueid (map (λ c. c.uniqueid) t.cels) [],
      elem-uniqueids c.uniqueid t.cels,
    )

-- If two sequences have no channel in common and a third has one with each of them, the result is
-- two groups, with the CELs of the first and the third, and those of the second and the third: the
-- groups that the third bridges are not merged, and its CELs are in both.
pub correlate_all_bridged :
    (a b c : Sequence)
    → meets b a ≡ false
    → meets c a ≡ true
    → meets c b ≡ true
    → map (λ (g : Group). g.cels) (correlate_all (a ∷ b ∷ c ∷ []) [])
      ≡ (a.cels ++ c.cels) ∷ (b.cels ++ c.cels) ∷ []
unfolding correlate_all correlate join_all join
correlate_all_bridged a b c apart left right =
    rw (shares-meets b a ∙ apart, shares-meets c a ∙ left, shares-meets c b ∙ right) refl
