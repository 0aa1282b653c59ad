-- ===== src/WebHub/Requests.antt =====
-- The limit on the requests of one browser (`Throttle` of dashboard/internal/webhub/webhub.go).
use uptime_mesh.Prelude.{
  ℕ, ◌+◌, ◌≡◌, List, [], ◌∷◌, Option, none, some, String, str_eq, eq_iff, ltb, arith, if◌then◌else◌,
  lookup, lookup-insert, Option-cases, Bool-cases, inl, inr,
}
use uptime_mesh.WebHub.{throttle}

-- The times at which requests of `key` are let through, of requests for any keys.
pub let_through : List (String × ℕ) → String → ℕ → List (String × ℕ) → List ℕ
let_through throttled key min_gap [] = []
let_through throttled key min_gap ((k, now) ∷ rs) =
    let (next, ok) = throttle throttled k min_gap now in
    let rest = let_through next key min_gap rs in
    if str_eq k key then (if ok then now ∷ rest else rest) else rest

abbrev pub times_of : String → List (String × ℕ) → List ℕ
times_of key [] = []
times_of key ((k, now) ∷ rs) = if str_eq k key then now ∷ times_of key rs else times_of key rs

-- Of some times, the first and then each that is a gap or more after the last one taken.
abbrev pub spread : ℕ → Option ℕ → List ℕ → List ℕ
spread gap none [] = []
spread gap none (t ∷ ts) = t ∷ spread gap (some t) ts
spread gap (some last) [] = []
spread gap (some last) (t ∷ ts) =
    let taken = ltb t (last + gap) in
    let rest = spread gap (some (if taken then last else t)) ts in if taken then rest else t ∷ rest

-- Of any requests on one connection, those of a key that are let through are the first of them,
-- unless one was let through before, and then each that comes the gap or more after the last one
-- that was; requests of other keys and requests that are refused make no difference.
pub let_through-spread :
    (rs throttled : List (String × ℕ)) (key : String) (gap : ℕ)
    → let_through throttled key gap rs ≡ spread gap (lookup key throttled) (times_of key rs)
unfolding let_through throttle
let_through-spread [] throttled key gap = elim (Option-cases (lookup key throttled)) [
  | inl n ↦ ground (arith, n)
  | inr (last, n) ↦ ground (arith, n)
]
let_through-spread ((k, now) ∷ rs) throttled key gap =
    let next = (throttle throttled k gap now).0 in
    let ih = let_through-spread rs next key gap in
    let bound = lookup-insert k key now throttled in
    elim (Bool-cases (str_eq k key)) [
      | inl e ↦ elim (Option-cases (lookup key throttled)) [
        | inl n ↦ ground (arith, ih, bound, n, e, eq_iff k key)
        | inr (last, n) ↦ ground (arith, ih, bound, n, e, eq_iff k key)
      ]
      | inr e ↦ ground (arith, ih, bound, e, eq_iff k key)
    ]
