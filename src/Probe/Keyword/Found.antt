-- ===== src/Probe/Keyword/Found.antt =====
-- Which keywords are found in a body (shared/probe/keyword.go).
use uptime_mesh.Prelude.{
  ℕ, ◌≡◌, refl, Bool, true, false, not, ◌&&◌, ◌||◌, List, [], ◌∷◌, arith, ◌==◌, ltb, length, All,
  Bool-cases, inl, inr,
}
use uptime_mesh.Probe.Keyword.{
  backslash, write_rune, has_backslash, is_nil, decode_json_escapes, keyword_candidates, contains,
  contains_keyword, all_found, none_found, keyword_ok,
}
use uptime_mesh.Probe.Keyword.Escapes.{
  is_scalar, escaped_rune, escaped, utf8, write_rune-ascii, decode_loop-escaped,
}

-- What is written without a backslash is written as it is.
escaped-plain : (rs : List ℕ) → has_backslash (escaped rs) ≡ false → escaped rs ≡ utf8 rs
escaped-plain [] h = refl
escaped-plain (r ∷ rs) h = elim (Bool-cases (ltb r 128 && not (r == backslash))) [
  | inl p ↦ let w = write_rune-ascii r (ground (arith, p)) in ground (arith, w, escaped-plain rs)
  | inr p ↦ absurd (ground (arith, p))
]

utf8-is_nil : (r : ℕ) (rs : List ℕ) → is_nil (utf8 (r ∷ rs)) ≡ false
unfolding write_rune
utf8-is_nil r rs = ground arith

escaped_rune-is_nil : (r : ℕ) (rest : List ℕ) → is_nil (escaped_rune r rest) ≡ false
escaped_rune-is_nil r rest = ground arith

decode_json_escapes-escaped :
    (valid : List ℕ → Bool) (rs : List ℕ)
    → All (λ r. is_scalar r ≡ true) rs
    → valid (escaped rs) ≡ true
    → has_backslash (escaped rs) ≡ true
    → decode_json_escapes valid (escaped rs) ≡ utf8 rs
unfolding decode_json_escapes
decode_json_escapes-escaped valid [] s v b = cc
decode_json_escapes-escaped valid (r ∷ rs) s v b = ground (
  arith,
  v,
  b,
  escaped_rune-is_nil r (escaped rs),
  decode_loop-escaped (r ∷ rs) (length (escaped (r ∷ rs))) s,
)

candidates-plain :
    (valid : List ℕ → Bool) (body : List ℕ)
    → has_backslash body && valid body ≡ false
    → keyword_candidates valid body ≡ body ∷ []
unfolding keyword_candidates decode_json_escapes
candidates-plain valid body h = ground (arith, h)

-- For a valid JSON body in which an encoder wrote the backslash and all that is not ASCII as
-- `\\uXXXX`: a keyword is found exactly if it stands in the bytes of the body, or in the UTF-8 text
-- that the body stands for.
pub contains_keyword-escaped :
    (valid : List ℕ → Bool) (rs keyword : List ℕ)
    → All (λ r. is_scalar r ≡ true) rs
    → valid (escaped rs) ≡ true
    → contains_keyword (keyword_candidates valid (escaped rs)) keyword
      ≡ contains (escaped rs) keyword || contains (utf8 rs) keyword
unfolding keyword_candidates contains_keyword
contains_keyword-escaped valid [] keyword s v = ground (arith, candidates-plain valid [] refl)
contains_keyword-escaped valid (r ∷ rs) keyword s v =
    elim (Bool-cases (has_backslash (escaped (r ∷ rs)))) [
      | inl b ↦ ground (arith, decode_json_escapes-escaped valid (r ∷ rs) s v b, utf8-is_nil r rs)
      | inr b ↦ ground (
        arith,
        candidates-plain valid (escaped (r ∷ rs)) (ground (arith, b)),
        escaped-plain (r ∷ rs) b,
      )
    ]

-- A body without a backslash, or one that is no valid JSON, is judged by its bytes alone.
pub keyword_ok-plain :
    (valid : List ℕ → Bool) (body : List ℕ) (must must_not : List (List ℕ))
    → has_backslash body && valid body ≡ false
    → keyword_ok valid body must must_not
      ≡ all_found (body ∷ []) must && none_found (body ∷ []) must_not
unfolding keyword_ok
keyword_ok-plain valid body must must_not h = rw (candidates-plain valid body h) refl
