-- ===== src/Transcription/Listing/Literal.antt =====
-- About `escape`: how LIKE reads the text that is searched.
use wazo_call_logd.Common.{
  ℕ, ◌≡◌, refl, Bool, true, false, List, [], ◌∷◌, map, eqb, arith, if◌then◌else◌,
}
use wazo_call_logd.Cdr.Filters.{replace_code}
use wazo_call_logd.Transcription.Listing.{escape}
use Prim.Native.Char.{Char, code}

-- A pattern of LIKE with the escape character `\`, as the documentation of PostgreSQL reads it: `%`
-- stands for any text, `_` for one character, and a character behind `\` for itself.
pub data LikeItem : Type 0 where
  any_text any_one : LikeItem
  literal : ℕ → LikeItem

-- one character that is not behind `\`
abbrev plain : ℕ → LikeItem
plain n = if eqb n 37 then any_text else (if eqb n 95 then any_one else literal n)

-- `escaped` tells that the character before was a `\` of its own.
unfoldable pub like_items : Bool → List Char → List LikeItem
like_items escaped [] = []
like_items true (c ∷ cs) = literal (code c) ∷ like_items false cs
like_items false (c ∷ cs) =
    let behind = like_items true cs in
    let rest = like_items false cs in if eqb (code c) 92 then behind else plain (code c) ∷ rest

-- Escaping a text and reading it as a pattern gives its characters back, each for itself.
pub like_items-escape :
    (cs : List Char) → like_items false (escape cs) ≡ map (λ c. literal (code c)) cs
unfolding like_items escape replace_code
like_items-escape [] = refl
like_items-escape (c ∷ cs) = ground (arith, like_items-escape cs)
