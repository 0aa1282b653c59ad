-- ===== src/Prelude/Counting.antt =====
-- Counting the elements of one list of texts that stand in another.
use Prim.Native.Nat.{◌+◌}
use Prim.Native.String.{String}
use mathlib.Core.Path.{◌≡◌, refl, sym, ap, ◌∙◌}
use mathlib.Core.Bool.{Bool, true, false}
use mathlib.Core.List.{List, [], ◌∷◌}
use native.Mathlib.Omega.{arith}
use text.Mathlib.Text.{◌==◌ as str_eq}
use text.Mathlib.TextEquality.{eq_iff}
use uptime_mesh.Prelude.Tests.{if◌then◌else◌}
use uptime_mesh.Prelude.Lists.{length, count_if, length-keep}
use uptime_mesh.Prelude.Keyed.{mem?, keep_ext}

-- No text stands in the list twice.
abbrev pub Distinct : List String → Type 0
Distinct [] = Unit
Distinct (x ∷ xs) = (mem? x xs ≡ false) × Distinct xs

count_if-absent : (x : String) (ys : List String) → mem? x ys ≡ false → count_if (str_eq x) ys ≡ 0
unfolding mem?
count_if-absent x [] h = refl
count_if-absent x (y ∷ ys) h = ground (arith, eq_iff x y, eq_iff y x, count_if-absent x ys)

count_if-once :
    (x : String) (ys : List String)
    → Distinct ys
    → count_if (str_eq x) ys ≡ (if mem? x ys then 1 else 0)
unfolding mem?
count_if-once x [] h = refl
count_if-once x (y ∷ ys) (n, h) =
    ground (arith, eq_iff x y, eq_iff y x, count_if-once x ys h, count_if-absent y ys n)

count_if-nothing : (ys : List String) → count_if (λ y. mem? y []) ys ≡ 0
unfolding mem?
count_if-nothing [] = refl
count_if-nothing (y ∷ ys) = count_if-nothing ys

count_if-or :
    (x : String) (xs ys : List String)
    → mem? x xs ≡ false
    → count_if (λ y. mem? y (x ∷ xs)) ys ≡ count_if (str_eq x) ys + count_if (λ y. mem? y xs) ys
unfolding mem?
count_if-or x xs [] h = refl
count_if-or x xs (y ∷ ys) h = ground (arith, eq_iff x y, count_if-or x xs ys h)

pub count_if-swap :
    (xs ys : List String)
    → Distinct xs
    → Distinct ys
    → count_if (λ x. mem? x ys) xs ≡ count_if (λ y. mem? y xs) ys
unfolding mem?
count_if-swap [] ys p q = ground (arith, count_if-nothing ys)
count_if-swap (x ∷ xs) ys (n, p) q =
    ground (arith, count_if-swap xs ys p q, count_if-or x xs ys n, count_if-once x ys q)

-- A count asks its test of the members only.
pub count_if-ext :
    (p q : String → Bool) (xs : List String)
    → ((k : String) → mem? k xs ≡ true → p k ≡ q k)
    → count_if p xs ≡ count_if q xs
count_if-ext p q xs h = sym (length-keep p xs) ∙ ap length (keep_ext p q xs h) ∙ length-keep q xs
