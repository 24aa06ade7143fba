-- ===== src/Cdr/Order.antt =====
-- database/queries/call_log.py: the order of a list, as `order_by` with the place of NULL.
use wazo_call_logd.Common.{
  ℕ, ◌+◌, ◌≡◌, refl, Bool, true, false, ◌||◌, Option, none, some, String, leb, arith,
}
use wazo_call_logd.Cdr.Rows.{Cdr}
use wazo_call_logd.Cdr.Status.{status_rank}
use wazo_call_logd.Cdr.Filters.{
  Database, OrderField, marshmallow_duration, marshmallow_answered, marshmallow_call_status,
  number_column, text_column, OrderDirection, asc, desc,
}

-- An interval is its end and its start; the shorter one goes first.
abbrev pub span_le : ℕ × ℕ → ℕ × ℕ → Bool
span_le (a_end, a_start) (b_end, b_start) = leb (a_end + b_start) (b_end + a_start)

-- `CallLog.date_end - CallLog.date_answer`
abbrev pub answered_span : Cdr → Option (ℕ × ℕ)
answered_span c = elim c.date_end [
  | none ↦ none
  | some to ↦ elim c.date_answer [ none ↦ none | some from ↦ some (to, from) ]
]

-- `asc().nullsfirst()`, `desc().nullslast()`, and the database's default, which is ascending with
-- NULL last
unfoldable pub value_le {ℓ} :
    {K : Type ℓ} → (K → K → Bool) → Option OrderDirection → Option K → Option K → Bool
value_le le direction none none = true
value_le le (some asc) none (some k) = true
value_le le (some asc) (some k) none = false
value_le le (some desc) none (some k) = false
value_le le (some desc) (some k) none = true
value_le le none none (some k) = false
value_le le none (some k) none = true
value_le le (some asc) (some k) (some j) = le k j
value_le le (some desc) (some k) (some j) = le j k
value_le le none (some k) (some j) = le k j

-- `a` may stand before `b`
unfoldable pub row_le : Database → OrderField → Option OrderDirection → Cdr → Cdr → Bool
unfolding value_le status_rank
row_le db marshmallow_duration direction a b =
    value_le span_le direction (answered_span a) (answered_span b)
row_le db marshmallow_answered direction a b = value_le leb direction a.date_answer b.date_answer
row_le db marshmallow_call_status direction a b =
    value_le leb direction (some (status_rank a)) (some (status_rank b))
row_le db (number_column column) direction a b = value_le leb direction (column a) (column b)
row_le db (text_column column) direction a b = value_le db.text_le direction (column a) (column b)

value_le_total {ℓ} :
    {K : Type ℓ} (le : K → K → Bool) (direction : Option OrderDirection) (a b : Option K)
    → ((k j : K) → (le k j || le j k) ≡ true)
    → (value_le le direction a b || value_le le direction b a) ≡ true
unfolding value_le
value_le_total le none none none h = refl
value_le_total le (some asc) none none h = refl
value_le_total le (some desc) none none h = refl
value_le_total le none none (some k) h = refl
value_le_total le (some asc) none (some k) h = refl
value_le_total le (some desc) none (some k) h = refl
value_le_total le none (some k) none h = refl
value_le_total le (some asc) (some k) none h = refl
value_le_total le (some desc) (some k) none h = refl
value_le_total le none (some k) (some j) h = h k j
value_le_total le (some asc) (some k) (some j) h = h k j
value_le_total le (some desc) (some k) (some j) h = h j k

leb_total : (m n : ℕ) → (leb m n || leb n m) ≡ true
leb_total m n = ground arith

span_le_total : (x y : ℕ × ℕ) → (span_le x y || span_le y x) ≡ true
span_le_total (a, b) (c, d) = ground arith

-- Any two rows can be ordered, where the collation orders any two texts.
pub row_le_total :
    (db : Database) (field : OrderField) (direction : Option OrderDirection) (a b : Cdr)
    → ((s t : String) → (db.text_le s t || db.text_le t s) ≡ true)
    → (row_le db field direction a b || row_le db field direction b a) ≡ true
unfolding row_le
row_le_total db marshmallow_duration d a b h =
    value_le_total span_le d (answered_span a) (answered_span b) span_le_total
row_le_total db marshmallow_answered d a b h =
    value_le_total leb d a.date_answer b.date_answer leb_total
row_le_total db marshmallow_call_status d a b h =
    value_le_total leb d (some (status_rank a)) (some (status_rank b)) leb_total
row_le_total db (number_column f) d a b h = value_le_total leb d (f a) (f b) leb_total
row_le_total db (text_column f) d a b h = value_le_total db.text_le d (f a) (f b) h

value_le_trans {ℓ} :
    {K : Type ℓ} (le : K → K → Bool) (direction : Option OrderDirection) (a b c : Option K)
    → ((i j k : K) → le i j ≡ true → le j k ≡ true → le i k ≡ true)
    → value_le le direction a b ≡ true
    → value_le le direction b c ≡ true
    → value_le le direction a c ≡ true
unfolding value_le
value_le_trans le none (some i) (some j) (some k) h p q = h i j k p q
value_le_trans le (some asc) (some i) (some j) (some k) h p q = h i j k p q
value_le_trans le (some desc) (some i) (some j) (some k) h p q = h k j i q p
value_le_trans le d none b c h p q = ground arith
value_le_trans le d (some i) none c h p q = ground arith
value_le_trans le d (some i) (some j) none h p q = ground arith

leb_trans : (i j k : ℕ) → leb i j ≡ true → leb j k ≡ true → leb i k ≡ true
leb_trans i j k p q = ground arith

span_le_trans : (x y z : ℕ × ℕ) → span_le x y ≡ true → span_le y z ≡ true → span_le x z ≡ true
span_le_trans (a, b) (c, d) (e, f) p q = ground arith

pub row_le_trans :
    (db : Database) (field : OrderField) (direction : Option OrderDirection) (a b c : Cdr)
    → ((r s t : String) → db.text_le r s ≡ true → db.text_le s t ≡ true → db.text_le r t ≡ true)
    → row_le db field direction a b ≡ true
    → row_le db field direction b c ≡ true
    → row_le db field direction a c ≡ true
unfolding row_le
row_le_trans db marshmallow_duration d a b c h =
    value_le_trans span_le d (answered_span a) (answered_span b) (answered_span c) span_le_trans
row_le_trans db marshmallow_answered d a b c h =
    value_le_trans leb d a.date_answer b.date_answer c.date_answer leb_trans
row_le_trans db marshmallow_call_status d a b c h =
    value_le_trans leb d (some (status_rank a)) (some (status_rank b)) (some (status_rank c))
      leb_trans
row_le_trans db (number_column f) d a b c h = value_le_trans leb d (f a) (f b) (f c) leb_trans
row_le_trans db (text_column f) d a b c h = value_le_trans db.text_le d (f a) (f b) (f c) h
