-- ===== src/Cdr/Service/FilenameMatch.antt =====
-- RECORDING_FILENAME_RE of plugins/cdr/services.py, on texts of the form of a recording's name: the
-- first attempt that succeeds.
use Prim.Native.Char.{Char, code}
use mathlib.Core.List.{append_assoc, append-nil}
use wazo_call_logd.Common.{
  ℕ, zero, suc, ◌≤◌, ◌<◌, ◌≡◌, refl, ◌∙◌, subst, Bool, true, false, none, some, List, [], ◌∷◌, ◌++◌,
  String, eqb, length, All, arith, Bool-cases, inl, inr,
}
use wazo_call_logd.Common.Text.{string}
use wazo_call_logd.Regex.{
  Item, one, many, group_start, group_end, finish, Groups, no_groups, match_items, push, start,
  close, times, any_char,
}
use wazo_call_logd.Cdr.Service.{digit, uuid_char}

abbrev is_dash : ℕ → Bool
is_dash n = eqb 45 n

-- What stands behind `.+` in the expression, from the back to the front.
abbrev name_end : List Item
name_end = group_end ∷ many any_char ∷ finish ∷ []

abbrev pub id_end : ℕ → List Item
id_end n = group_end ∷ one is_dash ∷ group_start ∷ (times n uuid_char ++ name_end)

abbrev pub dash_id : ℕ → List Item
dash_id n = one is_dash ∷ group_start ∷ one digit ∷ many digit ∷ id_end n

module _ (p : ℕ → Bool) (is : List Item) (c : Char) (cs : List Char) (g : Groups) where
  many-step : match_items (many p ∷ is) (c ∷ cs) g ≡ elim (p (code c)) [
    | true ↦ elim (match_items (many p ∷ is) cs (push c g)) [
      | none ↦ match_items is (c ∷ cs) g
      | some r ↦ some r
    ]
    | false ↦ match_items is (c ∷ cs) g
  ]
  unfolding match_items
  many-step = refl

  many-stops : p (code c) ≡ false → match_items (many p ∷ is) (c ∷ cs) g ≡ match_items is (c ∷ cs) g
  many-stops h = many-step ∙ rw h refl

  many-returns :
      match_items (many p ∷ is) cs (push c g) ≡ none
      → match_items (many p ∷ is) (c ∷ cs) g ≡ match_items is (c ∷ cs) g
  many-returns more = elim (Bool-cases (p (code c))) [
    | inr e ↦ many-stops e
    | inl e ↦ many-step ∙ rw (e, more) refl
  ]

  many-takes :
      (r : Groups × List Char)
      → p (code c) ≡ true
      → match_items (many p ∷ is) cs (push c g) ≡ some r
      → match_items (many p ∷ is) (c ∷ cs) g ≡ some r
  many-takes r e more = many-step ∙ rw (e, more) refl

-- Fewer characters than the class is repeated.
times-short :
    (n : ℕ) (xs back : List Char) (stop : Char) (g : Groups)
    → uuid_char (code stop) ≡ false
    → length xs < n
    → match_items (times n uuid_char ++ name_end) (xs ++ stop ∷ back) g ≡ none
unfolding match_items
times-short zero xs back stop g h k = absurd (omega arith)
times-short (suc n) [] back stop g h k = ground (arith, h)
times-short (suc n) (x ∷ xs) back stop g h k = elim (Bool-cases (uuid_char (code x))) [
  | inl e ↦ rw e (times-short n xs back stop (push x g) h (omega arith))
  | inr e ↦ rw e refl
]

id_end-short :
    (n : ℕ) (xs back : List Char) (stop : Char) (g : Groups)
    → uuid_char (code stop) ≡ false
    → length xs ≤ n
    → match_items (id_end n) (xs ++ stop ∷ back) g ≡ none
unfolding match_items
id_end-short n [] back stop g h k = ground (arith, h)
id_end-short n (x ∷ xs) back stop g h k = elim (Bool-cases (is_dash (code x))) [
  | inl e ↦ rw e (times-short n xs back stop (start (push x (close g))) h (omega arith))
  | inr e ↦ rw e refl
]

digits-short :
    (n : ℕ) (xs back : List Char) (stop : Char) (g : Groups)
    → uuid_char (code stop) ≡ false
    → length xs ≤ n
    → match_items (many digit ∷ id_end n) (xs ++ stop ∷ back) g ≡ none
digits-short n [] back stop g h k =
    many-stops digit (id_end n) stop back g (ground (arith, h)) ∙ id_end-short n [] back stop g h k
digits-short n (x ∷ xs) back stop g h k =
    many-returns digit (id_end n) x (xs ++ stop ∷ back) g
      (digits-short n xs back stop (push x g) h (omega arith))
    ∙ id_end-short n (x ∷ xs) back stop g h k

dash_id-short :
    (n : ℕ) (xs back : List Char) (stop : Char) (g : Groups)
    → uuid_char (code stop) ≡ false
    → length xs ≤ suc n
    → match_items (dash_id n) (xs ++ stop ∷ back) g ≡ none
unfolding match_items
dash_id-short n [] back stop g h k = ground (arith, h)
dash_id-short n (x ∷ []) back stop g h k = elim (Bool-cases (is_dash (code x))) [
  | inl e ↦ rw e (ground (arith, h))
  | inr e ↦ rw e refl
]
dash_id-short n (x ∷ y ∷ xs) back stop g h k = elim (Bool-cases (is_dash (code x))) [
  | inr e ↦ rw e refl
  | inl e ↦ elim (Bool-cases (digit (code y))) [
    | inl d ↦ rw (e, d) (digits-short n xs back stop (push y (start (push x g))) h (omega arith))
    | inr d ↦ rw (e, d) refl
  ]
]

dash_id-no_dash :
    (n : ℕ) (x : Char) (xs : List Char) (g : Groups)
    → is_dash (code x) ≡ false
    → match_items (dash_id n) (x ∷ xs) g ≡ none
unfolding match_items
dash_id-no_dash n x xs g e = rw e refl

-- `.+` and what follows it: not on a text without a dash, ...
any_dash_id-no_dash :
    (n : ℕ) (xs : List Char) (g : Groups)
    → All (λ c. is_dash (code c) ≡ false) xs
    → match_items (many any_char ∷ dash_id n) xs g ≡ none
unfolding match_items
any_dash_id-no_dash n [] g h = refl
any_dash_id-no_dash n (x ∷ xs) g (hx, h) =
    many-returns any_char (dash_id n) x xs g (any_dash_id-no_dash n xs (push x g) h)
    ∙ dash_id-no_dash n x xs g hx

-- ... not on a uuid or a part of it, ...
any_dash_id-short :
    (n : ℕ) (xs back : List Char) (stop : Char) (g : Groups)
    → uuid_char (code stop) ≡ false
    → All (λ c. is_dash (code c) ≡ false) (stop ∷ back)
    → length xs ≤ suc n
    → match_items (many any_char ∷ dash_id n) (xs ++ stop ∷ back) g ≡ none
any_dash_id-short n [] back stop g h no_dash k = any_dash_id-no_dash n (stop ∷ back) g no_dash
any_dash_id-short n (x ∷ xs) back stop g h no_dash k =
    many-returns any_char (dash_id n) x (xs ++ stop ∷ back) g
      (any_dash_id-short n xs back stop (push x g) h no_dash (omega arith))
    ∙ dash_id-short n (x ∷ xs) back stop g h k

-- ... and not behind the dash of the number.
any_dash_id-digits :
    (n : ℕ) (ds text : List Char)
    → All (λ c. digit (code c) ≡ true) ds
    → ((g : Groups) → match_items (many any_char ∷ dash_id n) text g ≡ none)
    → (g : Groups) → match_items (many any_char ∷ dash_id n) (ds ++ text) g ≡ none
any_dash_id-digits n [] text h back g = back g
any_dash_id-digits n (d ∷ ds) text (hd, h) back g =
    many-returns any_char (dash_id n) d (ds ++ text) g
      (any_dash_id-digits n ds text h back (push d g))
    ∙ dash_id-no_dash n d (ds ++ text) g (ground (arith, hd))

abbrev collecting : List String → List Char → Groups
collecting closed cs = record { closed = closed; current = some cs }

-- The digits are taken into the group, ...
digits-taken :
    (n : ℕ) (closed : List String) (taken ds : List Char) (dash : Char) (text : List Char)
    (r : Groups × List Char)
    → All (λ c. digit (code c) ≡ true) ds
    → is_dash (code dash) ≡ true
    → match_items (id_end n) (dash ∷ text) (collecting closed (taken ++ ds)) ≡ some r
    → match_items (many digit ∷ id_end n) (ds ++ dash ∷ text) (collecting closed taken) ≡ some r
unfolding push
digits-taken n closed taken [] dash text r h e m =
    many-stops digit (id_end n) dash text (collecting closed taken) (ground (arith, e))
    ∙ subst (λ cs. match_items (id_end n) (dash ∷ text) (collecting closed cs) ≡ some r)
        (append-nil taken) m
digits-taken n closed taken (d ∷ ds) dash text r (hd, h) e m =
    many-takes digit (id_end n) d (ds ++ dash ∷ text) (collecting closed taken) r hd (
      digits-taken n closed (taken ++ d ∷ []) ds dash text r h e
        (rw (append_assoc taken (d ∷ []) ds) m))

-- ... and so are the characters of the class.
times-taken :
    (p : ℕ → Bool) (back : List Item) (closed : List String) (taken cs text : List Char)
    → All (λ c. p (code c) ≡ true) cs
    → match_items (times (length cs) p ++ back) (cs ++ text) (collecting closed taken)
      ≡ match_items back text (collecting closed (taken ++ cs))
unfolding match_items push
times-taken p back closed taken [] text h = rw (append-nil taken) refl
times-taken p back closed taken (c ∷ cs) text (hc, h) = rw hc (
    times-taken p back closed (taken ++ c ∷ []) cs text h
    ∙ rw (append_assoc taken (c ∷ []) cs) refl)

abbrev pub wav : List Char
wav = "." ∷ "w" ∷ "a" ∷ "v" ∷ []

abbrev pub dash : Char
dash = "-"

-- A name behind its start: the dash, the digits `d ∷ ds`, a dash, the uuid, and `.wav`.
abbrev pub name_tail : Char → List Char → List Char → List Char
name_tail d ds uuid = dash ∷ d ∷ (ds ++ dash ∷ (uuid ++ wav))

module _ (d : Char) (ds uuid : List Char) (hd : digit (code d) ≡ true)
    (hds : All (λ c. digit (code c) ≡ true) ds)
    (hu : All (λ c. uuid_char (code c) ≡ true) uuid) where
  abbrev pub both : Groups × List Char
  both = (record { closed = string (d ∷ ds) ∷ string uuid ∷ []; current = none }, [])

  ends : match_items name_end wav (collecting (string (d ∷ ds) ∷ []) uuid) ≡ some both
  unfolding match_items push close
  ends = refl

  id_ends :
      match_items (id_end (length uuid)) (dash ∷ (uuid ++ wav)) (collecting [] (d ∷ ds)) ≡ some both
  unfolding match_items push start close
  id_ends = times-taken uuid_char name_end (string (d ∷ ds) ∷ []) [] uuid wav hu ∙ ends

  dash_id-name_tail :
      match_items (dash_id (length uuid)) (name_tail d ds uuid) no_groups ≡ some both
  unfolding match_items push start close
  dash_id-name_tail =
      rw hd (digits-taken (length uuid) [] (d ∷ []) ds dash (uuid ++ wav) both hds refl id_ends)

  -- `.+` gives back what it took up to the dash in front of the number.
  any_dash_id-name_tail :
      match_items (many any_char ∷ dash_id (length uuid)) (name_tail d ds uuid) no_groups
      ≡ some both
  any_dash_id-name_tail =
      let n = length uuid in
      many-returns any_char (dash_id n) dash (d ∷ (ds ++ dash ∷ (uuid ++ wav))) no_groups (
        any_dash_id-digits n (d ∷ ds) (dash ∷ (uuid ++ wav)) (hd, hds)
          (λ g.
            any_dash_id-short n (dash ∷ uuid) ("w" ∷ "a" ∷ "v" ∷ []) "." g refl
              (refl, (refl, (refl, (refl, tt)))) (omega arith))
          (push dash no_groups))
      ∙ dash_id-name_tail

  -- The start of the name is any text of one line.
  pub any_dash_id-name :
      (front : List Char)
      → All (λ c. any_char (code c) ≡ true) front
      → match_items (many any_char ∷ dash_id (length uuid)) (front ++ name_tail d ds uuid) no_groups
        ≡ some both
  unfolding push
  any_dash_id-name [] h = any_dash_id-name_tail
  any_dash_id-name (c ∷ front) (hc, h) =
      many-takes any_char (dash_id (length uuid)) c (front ++ name_tail d ds uuid) no_groups both hc
        (any_dash_id-name front h)
