-- ===== src/Prelude/Keyed.antt =====
-- Finite maps keyed by text, as association lists: `map[string]T` of the source.
use Prim.Native.String.{String}
use mathlib.Core.Path.{◌≡◌, refl}
use mathlib.Core.Bool.{Bool, true, false, ◌&&◌}
use mathlib.Core.Option.{Option, none, some}
use mathlib.Core.List.{List, [], ◌∷◌}
use native.Mathlib.Omega.{arith}
use text.Mathlib.Text.{◌==◌ as str_eq}
use text.Mathlib.TextEquality.{eq_iff}
use uptime_mesh.Prelude.Tests.{if◌then◌else◌}
use uptime_mesh.Prelude.Lists.{keep}

-- A set of texts: `map[string]bool` of which only `true` is stored.
unfoldable pub mem? : String → List String → Bool
mem? k [] = false
mem? k (x ∷ xs) = if str_eq x k then true else mem? k xs

pub mem?-keep :
    (p : String → Bool) (k : String) (xs : List String) → mem? k (keep p xs) ≡ mem? k xs && p k
unfolding mem?
mem?-keep p k [] = refl
mem?-keep p k (x ∷ xs) = ground (arith, eq_iff x k, mem?-keep p k xs)

-- A filter asks its test of the members only.
pub keep_ext :
    (p q : String → Bool) (xs : List String)
    → ((k : String) → mem? k xs ≡ true → p k ≡ q k)
    → keep p xs ≡ keep q xs
unfolding mem?
keep_ext p q [] h = refl
keep_ext p q (x ∷ xs) h =
    ground (arith, h x, eq_iff x x, keep_ext p q xs (λ k m. h k (ground arith)))

unfoldable pub remove : String → List String → List String
remove k [] = []
remove k (x ∷ xs) = if str_eq x k then remove k xs else x ∷ remove k xs

pub mem?-remove :
    (k j : String) (xs : List String)
    → mem? j (remove k xs) ≡ (if str_eq k j then false else mem? j xs)
unfolding mem? remove
mem?-remove k j [] = ground arith
mem?-remove k j (x ∷ xs) = ground (arith, eq_iff k j, eq_iff x k, eq_iff x j, mem?-remove k j xs)

module _ {κ} {T : Type κ} where
  -- The first binding counts.
  unfoldable pub lookup : String → List (String × T) → Option T
  lookup key [] = none
  lookup key ((at, old) ∷ rest) = if str_eq at key then some old else lookup key rest

  unfoldable pub delete : String → List (String × T) → List (String × T)
  delete key [] = []
  delete key ((at, old) ∷ rest) =
      let others = delete key rest in if str_eq at key then others else (at, old) ∷ others

  -- A key that is bound keeps its place.
  unfoldable pub insert : String → T → List (String × T) → List (String × T)
  insert key new [] = (key, new) ∷ []
  insert key new ((at, old) ∷ rest) =
      let others = insert key new rest in
      if str_eq at key then (key, new) ∷ rest else (at, old) ∷ others

  pub lookup-delete :
      (key other : String) (rows : List (String × T))
      → lookup other (delete key rows) ≡ (if str_eq key other then none else lookup other rows)
  unfolding lookup delete
  lookup-delete key other [] = ground arith
  lookup-delete key other ((at, old) ∷ rest) =
      ground (arith, lookup-delete key other rest, eq_iff at key, eq_iff at other, eq_iff key other)

  pub lookup-insert :
      (key other : String) (new : T) (rows : List (String × T))
      → lookup other (insert key new rows)
        ≡ (if str_eq key other then some new else lookup other rows)
  unfolding lookup insert
  lookup-insert key other new [] = refl
  lookup-insert key other new ((at, old) ∷ rest) =
      ground
        (arith, lookup-insert key other new rest, eq_iff at key, eq_iff at other, eq_iff key other)
