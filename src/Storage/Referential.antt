-- ===== src/Storage/Referential.antt =====
-- The references between the tables: those of CEL to CallLog, which the database does not check,
-- since they are in two databases, and those of CallLog to Tenant.
use wazo_call_logd.Common.{
  ℕ, suc, ◌≤◌, ◌≡◌, refl, sym, ◌∙◌, ap, Bool, true, false, not, ◌||◌, none, some, List, [], ◌∷◌,
  ◌++◌, String, map, inl, inr, any-append, elem, elem-insert, elem-insert_all, insert_all, All,
  All-map, All-map_of, All-append, keep, keep-All, keep-All_of, ◌==◌, eqb, ltb, eqb→eq, eqb_refl,
  Bool-cases, Option-cases, eq_iff, arith,
}
use wazo_call_logd.Cel.{Cel}
use wazo_call_logd.CallLog.{CallLog}
use wazo_call_logd.Storage.{
  StoredLog, Tables, has_id, among, numbered, next_after, tenant_uuids, have_tenants, unassociate,
  unassociate_all_from_call_log_ids, delete_rows, delete_tenant_rows, is_of_tenant, associate,
  associate_each, delete_from_list,
}

-- The CEL refers to no call log, to one that is there, or to one that is gone.
abbrev pub refers : List ℕ → List StoredLog → Cel → Bool
refers gone logs c = elim c.call_log_id [ none ↦ true | some id ↦ has_id id logs || among gone id ]

-- The call log is one of a tenant that is there.
abbrev pub known : List String → StoredLog → Bool
known tenants l = elim l.log.tenant_uuid [ none ↦ false | some t ↦ elem t tenants ]

pub record IsReferential (gone : List ℕ) (s : Tables) : Type 0 where
  pub of_cels : All (λ c. refers gone s.call_logs c ≡ true) s.cels
  pub of_call_logs : All (λ l. known s.tenants l ≡ true) s.call_logs
  pub fresh : All (λ l. ltb l.id s.next_id ≡ true) s.call_logs
  pub gone_fresh : All (λ id. ltb id s.next_id ≡ true) gone

-- A deletion of the rows that are of a kind, and of the references to them.
has_id-keep :
    (p : StoredLog → Bool) (ids : List ℕ) (id : ℕ) (logs : List StoredLog)
    → All (λ l. (p l || among ids l.id) ≡ true) logs
    → has_id id logs ≡ true
    → among ids id ≡ false
    → has_id id (keep p logs) ≡ true
has_id-keep p ids id [] k h e = h
has_id-keep p ids id (l ∷ ls) (kl, k) h e = elim (Bool-cases (eqb l.id id)) [
  | inl same ↦
      let same_id = eqb→eq l.id id same in
      let left : p l ≡ true = ground (arith, kl, e, ap (among ids) same_id) in
      rw left (ground (arith, same))
  | inr other ↦
      let rest = has_id-keep p ids id ls k (ground (arith, h, other)) e in
      ground (arith, rest, other)
]

refers-keep :
    (gone : List ℕ) (p : StoredLog → Bool) (ids : List ℕ) (logs : List StoredLog) (c : Cel)
    → All (λ l. (p l || among ids l.id) ≡ true) logs
    → refers gone logs c ≡ true
    → refers gone (keep p logs) (unassociate ids c) ≡ true
refers-keep gone p ids logs c k h = elim (Option-cases c.call_log_id) [
  | inl e ↦ ground (arith, e)
  | inr (id, e) ↦
      let there : (has_id id logs || among gone id) ≡ true = ground (arith, h, e) in
      elim (Bool-cases (among ids id)) [
        | inl deleted ↦ ground (arith, e, deleted)
        | inr stays ↦ elim (Bool-cases (has_id id logs)) [
          | inl has ↦ ground (arith, e, stays, has_id-keep p ids id logs k has stays)
          | inr lost ↦ ground (arith, e, stays, there, lost)
        ]
      ]
]

unassociate_none : (cels : List Cel) → map (unassociate []) cels ≡ cels
unassociate_none [] = refl
unassociate_none (c ∷ cels) = ground (arith, unassociate_none cels)

pub unassociate_all_from_call_log_ids_lem :
    (ids : List ℕ) (s : Tables)
    → unassociate_all_from_call_log_ids ids s ≡ record s { cels = map (unassociate ids) s.cels }
unfolding unassociate_all_from_call_log_ids
unassociate_all_from_call_log_ids_lem [] s =
    λ i. record s { cels = sym (unassociate_none s.cels) i }
unassociate_all_from_call_log_ids_lem (n ∷ ids) s = refl

module _ (gone : List ℕ) (s : Tables) (h : IsReferential gone s) where
  -- Rows that are deleted with their references leave the tables well-formed.
  pub keep-IsReferential :
      (p : StoredLog → Bool) (ids : List ℕ)
      → All (λ l. (p l || among ids l.id) ≡ true) s.call_logs
      → IsReferential gone
          (unassociate_all_from_call_log_ids ids (record s { call_logs = keep p s.call_logs }))
  keep-IsReferential p ids k =
      rw (unassociate_all_from_call_log_ids_lem ids (record s { call_logs = keep p s.call_logs }))
        record {
          of_cels =
              All-map_of (λ c. refers gone s.call_logs c ≡ true)
                (λ c. refers gone (keep p s.call_logs) c ≡ true) (unassociate ids) s.cels
                (λ c. refers-keep gone p ids s.call_logs c k) h.of_cels;
          of_call_logs = keep-All_of (λ l. known s.tenants l ≡ true) p s.call_logs h.of_call_logs;
          fresh = keep-All_of (λ l. ltb l.id s.next_id ≡ true) p s.call_logs h.fresh;
          gone_fresh = h.gone_fresh;
        }

everywhere :
    (q : StoredLog → Bool) (logs : List StoredLog)
    → ((l : StoredLog) → q l ≡ true)
    → All (λ l. q l ≡ true) logs
everywhere q [] h = tt
everywhere q (l ∷ ls) h = (h l, everywhere q ls h)

not_or : (b : Bool) → (not b || b) ≡ true
not_or b = ground arith

pub kept_or_listed :
    (p : StoredLog → Bool) (logs : List StoredLog)
    → All (λ l. (not (p l) || among (map (λ x. x.id) (keep p logs)) l.id) ≡ true) logs
kept_or_listed p [] = tt
kept_or_listed p (l ∷ ls) = (
  ground (arith, eqb_refl l.id),
  All-map (λ x. (not (p x) || among (map (λ y. y.id) (keep p ls)) x.id) ≡ true)
      (λ x. (not (p x) || among (map (λ y. y.id) (keep p (l ∷ ls))) x.id) ≡ true) ls
      (λ x k. ground (arith, k)) (kept_or_listed p ls),
)

next_after_le : (n : ℕ) (logs : List CallLog) → n ≤ next_after n logs
next_after_le n [] = omega arith
next_after_le n (log ∷ logs) = omega (arith, next_after_le (suc n) logs)

numbered-fresh :
    (n : ℕ) (logs : List CallLog) → All (λ l. ltb l.id (next_after n logs) ≡ true) (numbered n logs)
numbered-fresh n [] = tt
numbered-fresh n (log ∷ logs) =
    (ground (arith, next_after_le (suc n) logs), numbered-fresh (suc n) logs)

numbered-known :
    (tenants : List String) (n : ℕ) (logs : List CallLog)
    → have_tenants logs ≡ true
    → ((t : String) → elem t (tenant_uuids logs) ≡ true → elem t tenants ≡ true)
    → All (λ l. known tenants l ≡ true) (numbered n logs)
numbered-known tenants n [] h sub = tt
numbered-known tenants n (log ∷ logs) h sub = elim (Option-cases log.tenant_uuid) [
  | inl e ↦ ground (arith, e, h)
  | inr (t, e) ↦
      let own : elem t tenants ≡ true =
        sub t (ground (arith, e, elem-insert t t (tenant_uuids logs), eq_iff t t)) in
      (
        ground (arith, e, own),
        numbered-known tenants (suc n) logs (ground (arith, h))
            (λ u k. sub u (ground (arith, e, k, elem-insert u t (tenant_uuids logs)))),
      )
]

has_id_self : (logs : List StoredLog) → All (λ l. has_id l.id logs ≡ true) logs
has_id_self [] = tt
has_id_self (l ∷ ls) = (
  ground (arith, eqb_refl l.id),
  All-map (λ x. has_id x.id ls ≡ true) (λ x. has_id x.id (l ∷ ls) ≡ true) ls
      (λ x k. ground (arith, k)) (has_id_self ls),
)

associate_each-refers :
    (gone : List ℕ) (logs created : List StoredLog) (cels : List Cel)
    → All (λ l. has_id l.id logs ≡ true) created
    → All (λ c. refers gone logs c ≡ true) cels
    → All (λ c. refers gone logs c ≡ true) (associate_each created cels)
associate_each-refers gone logs [] cels h k = k
associate_each-refers gone logs (l ∷ ls) cels (hl, h) k =
    associate_each-refers gone logs ls (map (associate l) cels) h (
      All-map_of (λ c. refers gone logs c ≡ true) (λ c. refers gone logs c ≡ true) (associate l)
        cels (λ c r. ground (arith, hl, r)) k)

has_id-append :
    (id : ℕ) (logs created : List StoredLog)
    → (has_id id logs || has_id id created) ≡ true
    → has_id id (logs ++ created) ≡ true
has_id-append id logs created h = any-append (λ (l : StoredLog). eqb l.id id) logs created ∙ h

refers-append :
    (gone : List ℕ) (logs created : List StoredLog) (c : Cel)
    → refers gone logs c ≡ true
    → refers gone (logs ++ created) c ≡ true
refers-append gone logs created c h = elim (Option-cases c.call_log_id) [
  | inl e ↦ ground (arith, e)
  | inr (id, e) ↦
      let there : (has_id id logs || among gone id) ≡ true = ground (arith, h, e) in
      ground (arith, e, there, any-append (λ (l : StoredLog). eqb l.id id) logs created)
]

known-more :
    (tenants more : List String) (l : StoredLog)
    → known tenants l ≡ true
    → known (insert_all more tenants) l ≡ true
known-more tenants more l h = elim (Option-cases l.log.tenant_uuid) [
  | inl e ↦ ground (arith, e, h)
  | inr (t, e) ↦ ground (arith, e, h, elem-insert_all t more tenants)
]

module _ (gone : List ℕ) (s : Tables) (h : IsReferential gone s) where
  pub delete_from_list-IsReferential :
      (ids : List ℕ)
      → IsReferential gone (unassociate_all_from_call_log_ids ids (delete_from_list ids s))
  unfolding delete_from_list
  delete_from_list-IsReferential ids =
      keep-IsReferential gone s h (λ l. not (among ids l.id)) ids
        (everywhere (λ l. not (among ids l.id) || among ids l.id) s.call_logs
          (λ l. not_or (among ids l.id)))

  tenants_lem :
      (logs : List CallLog) (t : String)
      → elem t (tenant_uuids logs) ≡ true
      → elem t (insert_all (tenant_uuids logs) s.tenants) ≡ true
  tenants_lem logs t k = ground (arith, k, elem-insert_all t (tenant_uuids logs) s.tenants)

  -- New rows of tenants that are added, with their CELs.
  pub stored-IsReferential :
      (logs : List CallLog)
      → have_tenants logs ≡ true
      → IsReferential gone (record s {
        tenants = insert_all (tenant_uuids logs) s.tenants;
        call_logs = s.call_logs ++ numbered s.next_id logs;
        next_id = next_after s.next_id logs;
        cels = associate_each (numbered s.next_id logs) s.cels;
      })
  stored-IsReferential logs k =
      let created = numbered s.next_id logs in
      let all_logs = s.call_logs ++ created in
      let tenants = insert_all (tenant_uuids logs) s.tenants in
      record {
        of_cels =
            associate_each-refers gone all_logs created s.cels
              (All-map (λ l. has_id l.id created ≡ true) (λ l. has_id l.id all_logs ≡ true) created
                (λ l e. has_id-append l.id s.call_logs created (ground (arith, e)))
                (has_id_self created))
              (All-map (λ c. refers gone s.call_logs c ≡ true) (λ c. refers gone all_logs c ≡ true)
                s.cels (refers-append gone s.call_logs created) h.of_cels);
        of_call_logs =
            All-append (λ l. known tenants l ≡ true) s.call_logs created
              (All-map (λ l. known s.tenants l ≡ true) (λ l. known tenants l ≡ true) s.call_logs
                (known-more s.tenants (tenant_uuids logs)) h.of_call_logs)
              (numbered-known tenants s.next_id logs k (tenants_lem logs));
        fresh =
            All-append (λ l. ltb l.id (next_after s.next_id logs) ≡ true) s.call_logs created
              (All-map (λ l. ltb l.id s.next_id ≡ true)
                (λ l. ltb l.id (next_after s.next_id logs) ≡ true) s.call_logs
                (λ l e. ground (arith, e, next_after_le s.next_id logs)) h.fresh)
              (numbered-fresh s.next_id logs);
        gone_fresh =
            All-map (λ id. ltb id s.next_id ≡ true)
              (λ id. ltb id (next_after s.next_id logs) ≡ true) gone
              (λ id e. ground (arith, e, next_after_le s.next_id logs)) h.gone_fresh;
      }

-- A deletion of rows that leaves the references to them.
among-append :
    (id : ℕ) (ids gone : List ℕ) → among (ids ++ gone) id ≡ (among ids id || among gone id)
among-append id ids gone = any-append (eqb id) ids gone

refers-gone :
    (gone ids : List ℕ) (p : StoredLog → Bool) (logs : List StoredLog) (c : Cel)
    → All (λ l. (p l || among ids l.id) ≡ true) logs
    → refers gone logs c ≡ true
    → refers (ids ++ gone) (keep p logs) c ≡ true
refers-gone gone ids p logs c k h = elim (Option-cases c.call_log_id) [
  | inl e ↦ ground (arith, e)
  | inr (id, e) ↦
      let there : (has_id id logs || among gone id) ≡ true = ground (arith, h, e) in
      elim (Bool-cases (among ids id)) [
        | inl deleted ↦ ground (arith, e, deleted, among-append id ids gone)
        | inr stays ↦ elim (Bool-cases (has_id id logs)) [
          | inl has ↦ ground (arith, e, has_id-keep p ids id logs k has stays)
          | inr lost ↦ ground (arith, e, there, lost, among-append id ids gone)
        ]
      ]
]

known-keep :
    (tenant : String) (tenants : List String) (l : StoredLog)
    → known tenants l ≡ true
    → is_of_tenant tenant l ≡ false
    → known (keep (λ t. not (t == tenant)) tenants) l ≡ true
known-keep tenant tenants l h e = elim (Option-cases l.log.tenant_uuid) [
  | inl f ↦ ground (arith, f, h)
  | inr (t, f) ↦ ground (arith, f, h, e, elem-keep_other t tenant tenants)
]
  where
    elem-keep_other :
        (t tenant : String) (tenants : List String)
        → elem t tenants ≡ true
        → t == tenant ≡ false
        → elem t (keep (λ u. not (u == tenant)) tenants) ≡ true
    elem-keep_other t tenant [] h e = cc
    elem-keep_other t tenant (u ∷ us) h e =
        ground (arith, h, e, elem-keep_other t tenant us, eq_iff u t)

module _ (gone : List ℕ) (s : Tables) (h : IsReferential gone s) where
  pub delete_rows-IsReferential :
      (expired : StoredLog → Bool)
      → let out = delete_rows expired s in IsReferential (out.0 ++ gone) out.1
  unfolding delete_rows
  delete_rows-IsReferential expired =
      let ids = map (λ l. l.id) (keep expired s.call_logs) in
      let stays : StoredLog → Bool = λ l. not (expired l) in
      record {
        of_cels =
            All-map (λ c. refers gone s.call_logs c ≡ true)
              (λ c. refers (ids ++ gone) (keep stays s.call_logs) c ≡ true) s.cels
              (λ c. refers-gone gone ids stays s.call_logs c (kept_or_listed expired s.call_logs))
              h.of_cels;
        of_call_logs = keep-All_of (λ l. known s.tenants l ≡ true) stays s.call_logs h.of_call_logs;
        fresh = keep-All_of (λ l. ltb l.id s.next_id ≡ true) stays s.call_logs h.fresh;
        gone_fresh =
            All-append (λ id. ltb id s.next_id ≡ true) ids gone
              (All-map_of (λ (l : StoredLog). ltb l.id s.next_id ≡ true)
                (λ id. ltb id s.next_id ≡ true) (λ l. l.id) (keep expired s.call_logs) (λ l e. e)
                (keep-All_of (λ l. ltb l.id s.next_id ≡ true) expired s.call_logs h.fresh))
              h.gone_fresh;
      }

  pub delete_tenant_rows-IsReferential :
      (tenant : String)
      → let out = delete_tenant_rows tenant s in IsReferential (out.0 ++ gone) out.1
  unfolding delete_tenant_rows delete_rows
  delete_tenant_rows-IsReferential tenant =
      let left = delete_rows-IsReferential (is_of_tenant tenant) in
      let others = keep (λ l. not (is_of_tenant tenant l)) s.call_logs in
      record {
        of_cels = left.of_cels;
        of_call_logs =
            All-map (λ l. (not (is_of_tenant tenant l) ≡ true) × (known s.tenants l ≡ true)) _
              others (λ l (apart, k). known-keep tenant s.tenants l k (ground (arith, apart)))
              (both others (keep-All (λ l. not (is_of_tenant tenant l)) s.call_logs)
                left.of_call_logs);
        fresh = left.fresh;
        gone_fresh = left.gone_fresh;
      }
    where
      both :
          (ls : List StoredLog)
          → All (λ l. not (is_of_tenant tenant l) ≡ true) ls
          → All (λ l. known s.tenants l ≡ true) ls
          → All (λ l. (not (is_of_tenant tenant l) ≡ true) × (known s.tenants l ≡ true)) ls
      both [] a b = tt
      both (l ∷ ls) (a, x) (b, y) = ((a, b), both ls x y)
