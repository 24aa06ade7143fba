-- ===== src/Storage/Cels/Correlated.antt =====
-- About `_correlated_cels_by_uniqueid`: which links are read.
use wazo_call_logd.Common.{
  ◌≡◌, refl, ◌∙◌, Bool, true, ◌&&◌, List, [], ◌∷◌, String, ◌==◌, eq_iff, map, any, elem,
  elem-insert_all, insert_all, keep, arith,
}
use wazo_call_logd.Common.Sort.{any-sort}
use wazo_call_logd.Cel.{Cel}
use wazo_call_logd.Storage.Cels.{
  earlier, correlated_linkedids, correlated_cels_by_uniqueid, find_from_linked_id,
}

any-keep : (p q : Cel → Bool) (cels : List Cel) → any p (keep q cels) ≡ any (λ c. p c && q c) cels
any-keep p q [] = refl
any-keep p q (c ∷ cels) = ground (arith, any-keep p q cels)

elem-map :
    (field : Cel → String) (t : String) (cels : List Cel)
    → elem t (map field cels) ≡ any (λ c. field c == t) cels
elem-map field t [] = refl
elem-map field t (c ∷ cels) = ground (arith, elem-map field t cels)

any_cong : (p q : Cel → Bool) (cels : List Cel) → ((c : Cel) → p c ≡ q c) → any p cels ≡ any q cels
any_cong p q [] h = refl
any_cong p q (c ∷ cels) h = ground (arith, h c, any_cong p q cels h)

-- A set of the values of a column.
elem-column :
    (field : Cel → String) (t : String) (q : Cel → Bool) (cels : List Cel)
    → elem t (insert_all (map field (keep q cels)) []) ≡ any (λ c. field c == t && q c) cels
elem-column field t q cels =
    elem-insert_all t (map field (keep q cels)) []
    ∙ ground (arith, elem-map field t (keep q cels), any-keep (λ c. field c == t) q cels)

any_weaken :
    (p q : Cel → Bool) (cels : List Cel)
    → ((c : Cel) → p c ≡ true → q c ≡ true)
    → any p cels ≡ true
    → any q cels ≡ true
any_weaken p q [] h k = k
any_weaken p q (c ∷ cels) h k = ground (arith, h c, k, any_weaken p q cels h)

-- Two CELs with one uniqueid join their links: with the first link, `find_from_linked_id` reads of
-- the second one exactly the CELs that the table has, whatever is asked about them (`p`).
pub find_from_linked_id-joined :
    (table : List Cel) (linked other uniqueid : String) (p : Cel → Bool)
    → any (λ c. c.uniqueid == uniqueid && c.linkedid == linked) table ≡ true
    → any (λ c. c.linkedid == other && c.uniqueid == uniqueid) table ≡ true
    → any (λ c. c.linkedid == other && p c) (find_from_linked_id table linked)
      ≡ any (λ c. c.linkedid == other && p c) table
unfolding find_from_linked_id correlated_cels_by_uniqueid correlated_linkedids
find_from_linked_id-joined table linked other uniqueid p first second =
    let ids = insert_all (map (λ c. c.uniqueid) (keep (λ c. c.linkedid == linked) table)) [] in
    let links = correlated_linkedids table ids in
    let id_found : elem uniqueid ids ≡ true =
      elem-column (λ c. c.uniqueid) uniqueid (λ c. c.linkedid == linked) table ∙ first in
    let link_found : elem other links ≡ true =
      elem-column (λ c. c.linkedid) other (λ c. elem c.uniqueid ids) table
      ∙ any_weaken (λ c. c.linkedid == other && c.uniqueid == uniqueid)
          (λ c. c.linkedid == other && elem c.uniqueid ids) table
          (λ c h. ground (arith, h, id_found, eq_iff c.uniqueid uniqueid)) second in
    any-sort earlier (λ c. c.linkedid == other && p c) (keep (λ c. elem c.linkedid links) table)
    ∙ any-keep (λ c. c.linkedid == other && p c) (λ c. elem c.linkedid links) table
    ∙ any_cong (λ c. (c.linkedid == other && p c) && elem c.linkedid links)
        (λ c. c.linkedid == other && p c) table
        (λ c. ground (arith, link_found, eq_iff c.linkedid other))
