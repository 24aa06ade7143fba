-- ===== src/Common/Dict.antt =====
-- Python's `dict` with text keys: entries in the order of their first insertion. An assignment to
-- a key that is there keeps its place.
use wazo_call_logd.Common.Tests.{if◌then◌else◌}
use Prim.Native.String.{String}
use mathlib.Core.Path.{◌≡◌, refl}
use mathlib.Core.Option.{Option, none, some}
use mathlib.Core.List.{List, [], ◌∷◌, map}
use native.Mathlib.Omega.{arith}
use text.Mathlib.Text.{◌==◌}
use text.Mathlib.TextEquality.{eq_iff}

abbrev pub Dict {ℓ} : Type ℓ → Type ℓ
Dict V = List (String × V)

module _ {ℓ} {V : Type ℓ} where
  -- `d.get(k)`
  unfoldable pub get : Dict V → String → Option V
  get [] k = none
  get ((j, v) ∷ d) k = let rest = get d k in if j == k then some v else rest

  -- `d[k] = v`
  unfoldable pub put : Dict V → String → V → Dict V
  put [] k v = (k, v) ∷ []
  put ((j, w) ∷ d) k v = if j == k then (j, v) ∷ d else (j, w) ∷ put d k v

  -- `d.pop(k, None)`
  unfoldable pub pop : Dict V → String → Dict V
  pop [] k = []
  pop ((j, w) ∷ d) k = let rest = pop d k in if j == k then rest else (j, w) ∷ rest

  abbrev pub keys : Dict V → List String
  keys = map (λ e. e.0)

  abbrev pub values : Dict V → List V
  values = map (λ e. e.1)

  pub get-put :
      (d : Dict V) (k other : String) (v : V)
      → get (put d k v) other ≡ (if k == other then some v else get d other)
  unfolding get put
  get-put [] k j v = refl
  get-put ((i, w) ∷ d) k j v = ground (arith, get-put d k j v, eq_iff i j, eq_iff i k, eq_iff k j)

  pub get-pop : (d : Dict V) (k j : String) → get (pop d k) j ≡ (if k == j then none else get d j)
  unfolding get pop
  get-pop [] k j = ground arith
  get-pop ((i, w) ∷ d) k j = ground (arith, eq_iff k j, eq_iff i k, eq_iff i j, get-pop d k j)

  -- `dict(pairs)`: the last pair of a key decides
  abbrev pub of_pairs : Dict V → List (String × V) → Dict V
  of_pairs d [] = d
  of_pairs d ((k, v) ∷ ps) = of_pairs (put d k v) ps
