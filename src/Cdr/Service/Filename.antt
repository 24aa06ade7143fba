-- ===== src/Cdr/Service/Filename.antt =====
-- `Recording.filename` of database/models.py, and the search for it by `CDRService.list`.
use Prim.Native.Char.{Char, code}
use wazo_call_logd.Common.{
  ℕ, zero, suc, ◌+◌, ◌-◌, ◌*◌, ◌/◌, ◌%◌, ◌<◌, ◌≡◌, refl, ◌∙◌, ap, subst, true, none, some, List, [],
  ◌∷◌, ◌++◌, String, ltb, length, length-append, All, All-append, arith, Bool-cases, inl, inr,
  if◌then◌else◌,
}
use wazo_call_logd.Common.Text.{chars, string, chars-string, filled-string}
use wazo_call_logd.Regex.{any_char, match_groups, match_items, push, many, no_groups, Groups}
use wazo_call_logd.Cdr.Filters.{ListParams}
use wazo_call_logd.Cdr.Service.{
  digit, uuid_char, recording_filename, number_of, first_number, recording_call_id, searched_id,
  search_by_filename,
}
use wazo_call_logd.Cdr.Service.FilenameMatch.{wav, dash, name_tail, dash_id, any_dash_id-name}

abbrev digit_char : ℕ → Char
digit_char zero = "0"
digit_char (suc zero) = "1"
digit_char (suc (suc zero)) = "2"
digit_char (suc (suc (suc zero))) = "3"
digit_char (suc (suc (suc (suc zero)))) = "4"
digit_char (suc (suc (suc (suc (suc zero))))) = "5"
digit_char (suc (suc (suc (suc (suc (suc zero)))))) = "6"
digit_char (suc (suc (suc (suc (suc (suc (suc zero))))))) = "7"
digit_char (suc (suc (suc (suc (suc (suc (suc (suc zero)))))))) = "8"
digit_char (suc (suc (suc (suc (suc (suc (suc (suc (suc n))))))))) = "9"

unfoldable pub decimal_loop : ℕ → ℕ → List Char
decimal_loop zero n = []
decimal_loop (suc fuel) n =
    let more = decimal_loop fuel (n / 10) ++ digit_char (n % 10) ∷ [] in
    if ltb n 10 then digit_char n ∷ [] else more

-- `str(n)`; a number has fewer digits than it counts, but for zero
unfoldable pub decimal : ℕ → List Char
unfolding decimal_loop
decimal n = decimal_loop (suc n) n

-- `filename`; `utc_start` is what strftime gives for the start in UTC
unfoldable pub filename : String → ℕ → String → String
unfolding decimal
filename utc_start cdr_id uuid =
    string (chars utc_start ++ (dash ∷ (decimal cdr_id ++ (dash ∷ (chars uuid ++ wav)))))

code-digit_char : (n : ℕ) → n < 10 → code (digit_char n) ≡ 48 + n
code-digit_char zero h = refl
code-digit_char (suc zero) h = refl
code-digit_char (suc (suc zero)) h = refl
code-digit_char (suc (suc (suc zero))) h = refl
code-digit_char (suc (suc (suc (suc zero)))) h = refl
code-digit_char (suc (suc (suc (suc (suc zero))))) h = refl
code-digit_char (suc (suc (suc (suc (suc (suc zero)))))) h = refl
code-digit_char (suc (suc (suc (suc (suc (suc (suc zero))))))) h = refl
code-digit_char (suc (suc (suc (suc (suc (suc (suc (suc zero)))))))) h = refl
code-digit_char (suc (suc (suc (suc (suc (suc (suc (suc (suc n))))))))) h = omega arith

digit-digit_char : (n : ℕ) → n < 10 → digit (code (digit_char n)) ≡ true
digit-digit_char n h = rw (code-digit_char n h) (ground arith)

number_of-snoc :
    (a : ℕ) (cs : List Char) (c : Char)
    → number_of a (cs ++ c ∷ []) ≡ number_of a cs * 10 + (code c - 48)
number_of-snoc a [] c = refl
number_of-snoc a (b ∷ cs) c = number_of-snoc (a * 10 + (code b - 48)) cs c

number_of-decimal_loop : (fuel n : ℕ) → n < fuel → number_of 0 (decimal_loop fuel n) ≡ n
unfolding decimal_loop
number_of-decimal_loop zero n h = absurd (omega arith)
number_of-decimal_loop (suc fuel) n h = elim (Bool-cases (ltb n 10)) [
  | inl e ↦ rw e (ground (arith, code-digit_char n))
  | inr e ↦
      let rest = decimal_loop fuel (n / 10) in
      rw e (
        number_of-snoc 0 rest (digit_char (n % 10))
        ∙ rw
            (
              code-digit_char (n % 10) (omega arith),
              number_of-decimal_loop fuel (n / 10) (ground arith),
            )
            (omega arith))
]

decimal_loop-All : (fuel n : ℕ) → All (λ c. digit (code c) ≡ true) (decimal_loop fuel n)
unfolding decimal_loop
decimal_loop-All zero n = tt
decimal_loop-All (suc fuel) n = elim (Bool-cases (ltb n 10)) [
  | inl e ↦ rw e (digit-digit_char n (ground arith), tt)
  | inr e ↦ rw e (
      All-append (λ c. digit (code c) ≡ true) (decimal_loop fuel (n / 10))
        (digit_char (n % 10) ∷ []) (decimal_loop-All fuel (n / 10))
        (digit-digit_char (n % 10) (omega arith), tt))
]

-- The match of a name: the number between the dashes, and the uuid.
name_groups :
    (f : Char) (front : List Char) (c : Char) (cs uuid : List Char)
    → All (λ d. any_char (code d) ≡ true) (f ∷ front)
    → All (λ d. digit (code d) ≡ true) (c ∷ cs)
    → All (λ d. uuid_char (code d) ≡ true) uuid
    → length uuid ≡ 36
    → match_items recording_filename (f ∷ (front ++ name_tail c cs uuid)) no_groups
      ≡ some (record { closed = string (c ∷ cs) ∷ string uuid ∷ []; current = none }, [])
unfolding match_items push
name_groups f front c cs uuid (hf, one_line) (hc, hcs) of_class sized = rw hf (
    subst
      (λ n.
        match_items (many any_char ∷ dash_id n) (front ++ name_tail c cs uuid) no_groups
        ≡ some (record { closed = string (c ∷ cs) ∷ string uuid ∷ []; current = none }, []))
      sized (any_dash_id-name c cs uuid hc hcs of_class front one_line))

recording_call_id-matched :
    (s : String) (g : Groups) (rest : List Char)
    → match_items recording_filename (chars s) no_groups ≡ some (g, rest)
    → recording_call_id s ≡ first_number g.closed
unfolding recording_call_id match_groups
recording_call_id-matched s g rest e = rw (e, recording_call_id) refl

searched_id-name :
    (front digits uuid : List Char)
    → 0 < length front
    → 0 < length digits
    → All (λ d. any_char (code d) ≡ true) front
    → All (λ d. digit (code d) ≡ true) digits
    → All (λ d. uuid_char (code d) ≡ true) uuid
    → length uuid ≡ 36
    → searched_id (some (string (front ++ (dash ∷ (digits ++ (dash ∷ (uuid ++ wav)))))))
      ≡ some (number_of 0 digits)
unfolding searched_id
searched_id-name [] digits uuid h k one_line numeric of_class sized = absurd (omega arith)
searched_id-name (f ∷ front) [] uuid h k one_line numeric of_class sized = absurd (omega arith)
searched_id-name (f ∷ front) (c ∷ cs) uuid h k one_line numeric of_class sized =
    let name = front ++ name_tail c cs uuid in
    let matched =
      ap (λ t. match_items recording_filename t no_groups) (chars-string (f ∷ name))
      ∙ name_groups f front c cs uuid one_line numeric of_class sized in
    rw (filled-string f name) (
      recording_call_id-matched (string (f ∷ name)) _ [] matched
      ∙ ap (λ t. some (number_of 0 t)) (chars-string (c ∷ cs)))

length-decimal : (n : ℕ) → 0 < length (decimal n)
unfolding decimal decimal_loop
length-decimal n = elim (Bool-cases (ltb n 10)) [
  | inl e ↦ rw e (omega arith)
  | inr e ↦ rw e (omega (arith, length-append (decimal_loop n (n / 10)) (digit_char (n % 10) ∷ [])))
]

-- A search for the name of a recording's file is a search for the recording's call alone, whatever
-- the rest of the request is. The start of the name is a text of one line, not empty, and the uuid
-- has 36 characters, which are small letters, digits and dashes.
pub search_by_filename-filename :
    (params : ListParams) (utc_start uuid : String) (cdr_id : ℕ)
    → 0 < length (chars utc_start)
    → All (λ c. any_char (code c) ≡ true) (chars utc_start)
    → length (chars uuid) ≡ 36
    → All (λ c. uuid_char (code c) ≡ true) (chars uuid)
    → search_by_filename (record params { search = some (filename utc_start cdr_id uuid) })
      ≡ record params { search = none; id = some cdr_id }
unfolding search_by_filename filename decimal
search_by_filename-filename params utc_start uuid cdr_id h one_line sized of_class =
    let digits = decimal cdr_id in
    rw
      (
        searched_id-name (chars utc_start) digits (chars uuid) h (length-decimal cdr_id) one_line
            (decimal_loop-All (suc cdr_id) cdr_id) of_class sized,
        number_of-decimal_loop (suc cdr_id) cdr_id (omega arith),
      )
      refl
