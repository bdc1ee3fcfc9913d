-- ===== src/Base/Map.antt =====
-- A `std::unordered_map` with text keys as an association list: `operator[]` assigns in place or adds
-- an entry, and a lookup gives the first entry of its key.
use Prim.Native.String.{String}
use mathlib.Core.Path.{◌≡◌, refl, subst, ◌∙◌}
use mathlib.Core.List.{List, [], ◌∷◌}
use mathlib.Core.Option.{Option, none, some}
use native.Mathlib.Omega.{arith}
use text.Mathlib.Text.{◌==◌ as str_eq}
use text.Mathlib.TextEquality.{eq_iff}
use direct_xshader_patcher.Base.Tests.{if◌then◌else◌, Bool-cases}
use mathlib.Core.Logic.{inl, inr}

module _ {ℓ} {V : Type ℓ} where
  unfoldable pub lookup : String → List (String × V) → Option V
  lookup k [] = none
  lookup k ((j, v) ∷ m) = if str_eq j k then some v else lookup k m

  unfoldable pub insert : String → V → List (String × V) → List (String × V)
  insert k v [] = (k, v) ∷ []
  insert k v ((j, w) ∷ m) = if str_eq j k then (k, v) ∷ m else (j, w) ∷ insert k v m

  -- `for (auto& [k, v] : from) to[k] = v;`
  unfoldable pub merge : List (String × V) → List (String × V) → List (String × V)
  merge [] to = to
  merge ((k, v) ∷ from) to = merge from (insert k v to)

  pub lookup-insert :
      (key asked : String) (value : V) (entries : List (String × V))
      → lookup asked (insert key value entries)
        ≡ (if str_eq key asked then some value else lookup asked entries)
  unfolding insert lookup
  lookup-insert key asked value ((name, old) ∷ entries) = ground (
    lookup-insert key asked value entries,
    eq_iff name key,
    eq_iff name asked,
    eq_iff key asked,
    arith,
  )
  lookup-insert key asked value [] = refl

  -- A key that the merged map does not have keeps its value.
  pub lookup-merge_absent :
      (j : String) (from to : List (String × V))
      → lookup j from ≡ none
      → lookup j (merge from to) ≡ lookup j to
  unfolding lookup merge
  lookup-merge_absent j [] to e = refl
  lookup-merge_absent j ((k, v) ∷ from) to e =
      ground (arith, lookup-merge_absent j from (insert k v to), lookup-insert k j v to)

  -- Every key stands once, as in a map of the source.
  abbrev pub DistinctKeys : List (String × V) → Type ℓ
  DistinctKeys [] = Unit
  DistinctKeys ((k, v) ∷ m) = (lookup k m ≡ none) × DistinctKeys m

  -- A key that the merged map has takes that map's value.
  pub lookup-merge_present :
      (j : String) (v : V) (from to : List (String × V))
      → DistinctKeys from
      → lookup j from ≡ some v
      → lookup j (merge from to) ≡ some v
  unfolding lookup merge
  lookup-merge_present j v [] to d e = cc
  lookup-merge_present j v ((k, w) ∷ from) to d e = elim (Bool-cases (str_eq k j)) [
    | inl same ↦
        let equal = (eq_iff k j).0 same in
        lookup-merge_absent j from (insert k w to) (subst (λ t. lookup t from ≡ none) equal d.0)
        ∙ lookup-insert k j w to
        ∙ (rw same (rw same at e))
    | inr differs ↦ lookup-merge_present j v from (insert k w to) d.1 (rw differs at e)
  ]
