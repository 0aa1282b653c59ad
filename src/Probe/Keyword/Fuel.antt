-- ===== src/Probe/Keyword/Fuel.antt =====
-- The loop of shared/probe/keyword.go ends within as many turns as the body has bytes.
use uptime_mesh.Prelude.{
  ℕ, zero, suc, ◌≤◌, ◌≡◌, refl, ap, List, [], ◌∷◌, ◌++◌, some, arith, length, Option-cases,
  Bool-cases, inl, inr,
}
use uptime_mesh.Probe.Keyword.{
  parse_hex, is_surrogate, low_half, decode_unicode_escape, decode_unit, decode_loop,
}

low_half-length :
    (hi : ℕ) (body : List ℕ) (r : ℕ) (left : List ℕ)
    → low_half hi body ≡ some (r, left)
    → length left ≤ length body
unfolding low_half
low_half-length hi [] r left e = absurd (ground arith)
low_half-length hi (a ∷ []) r left e = absurd (ground arith)
low_half-length hi (a ∷ b ∷ []) r left e = absurd (ground arith)
low_half-length hi (a ∷ b ∷ c ∷ []) r left e = absurd (ground arith)
low_half-length hi (a ∷ b ∷ c ∷ d ∷ []) r left e = absurd (ground arith)
low_half-length hi (a ∷ b ∷ c ∷ d ∷ x ∷ []) r left e = absurd (ground arith)
low_half-length hi (a ∷ b ∷ c ∷ d ∷ x ∷ y ∷ body) r left e =
    let same : left ≡ body = ground arith in ground (arith, same)

decode_unicode_escape-length :
    (body : List ℕ) (r : ℕ) (left : List ℕ)
    → decode_unicode_escape body ≡ some (r, left)
    → length left ≤ length body
unfolding decode_unicode_escape
decode_unicode_escape-length [] r left e = absurd (ground arith)
decode_unicode_escape-length (a ∷ []) r left e = absurd (ground arith)
decode_unicode_escape-length (a ∷ b ∷ []) r left e = absurd (ground arith)
decode_unicode_escape-length (a ∷ b ∷ c ∷ []) r left e = absurd (ground arith)
decode_unicode_escape-length (a ∷ b ∷ c ∷ d ∷ body) r left e =
    elim (Option-cases (parse_hex 0 (a ∷ b ∷ c ∷ d ∷ []))) [
      | inl n ↦ absurd (ground (arith, n))
      | inr (hi, n) ↦ elim (Bool-cases (is_surrogate hi)) [
        | inl s ↦ ground (arith, n, s, low_half-length hi body r left)
        | inr s ↦ let same : left ≡ body = ground (arith, n, s) in ground (arith, same)
      ]
    ]

decode_unit-length : (c : ℕ) (rest : List ℕ) → length (decode_unit c rest).1 ≤ length rest
unfolding decode_unit
decode_unit-length c [] = ground arith
decode_unit-length c (n ∷ rest) = elim (Option-cases (decode_unicode_escape rest)) [
  | inl e ↦ ground (arith, e)
  | inr ((r, left), e) ↦ ground (arith, e, decode_unicode_escape-length rest r left e)
]

-- With a turn for each byte of a body, whatever it holds, the loop has read the whole of it: more
-- fuel gives the same.
pub decode_loop-length :
    (n m : ℕ) (body : List ℕ)
    → length body ≤ n
    → length body ≤ m
    → decode_loop n body ≡ decode_loop m body
unfolding decode_loop
decode_loop-length zero zero body h k = refl
decode_loop-length zero (suc m) [] h k = refl
decode_loop-length zero (suc m) (c ∷ body) h k = absurd (omega (arith, h))
decode_loop-length (suc n) zero [] h k = refl
decode_loop-length (suc n) zero (c ∷ body) h k = absurd (omega (arith, k))
decode_loop-length (suc n) (suc m) [] h k = refl
decode_loop-length (suc n) (suc m) (c ∷ body) h k =
    let l = decode_unit-length c body in
    ap (λ w. (decode_unit c body).0 ++ w)
      (decode_loop-length n m (decode_unit c body).1 (omega (arith, h, l)) (omega (arith, k, l)))
