-- ===== src/StatusSpec/Expanded.antt =====
-- The codes that a list of texts stands for (shared/checkconfig/status.go).
use mathlib.Core.Path.{fun_ext}
use uptime_mesh.Prelude.{
  ℕ, zero, suc, ◌+◌, ◌-◌, ◌≤◌, ◌<◌, ◌≡◌, refl, Bool, true, false, ◌&&◌, ◌||◌, List, [], ◌∷◌, ◌++◌,
  Option, none, some, ltb, leb, ◌==◌, if◌then◌else◌, arith, ap, ◌∙◌, Bool-cases, inl, inr,
  Option-cases, keep,
}
use uptime_mesh.StatusSpec.{
  cut, Text, ℤ, pos, negsuc, status_range_sep, itoa, split_status_range, normalize_spec_text,
  check_status_code, range_text, parse_normalized, atoi, parse_status_spec, mark, mark_from,
  mark_range, mark_code, mark_spec, mark_specs, seen_from, expand_status_specs, status_code_min,
  status_code_max,
}
use uptime_mesh.StatusSpec.Codes.{split-itoa, atoi-itoa, split-range_text}

-- The two ends of what a normalized text says, the same where it says one code.
abbrev pub code_ends : ℤ → ℤ → Option (ℕ × ℕ)
code_ends (pos lo) (pos hi) =
    if leb status_code_min lo && (leb lo hi && leb hi status_code_max) then some (lo, hi) else none
code_ends _ _ = none

abbrev pub ends_said : Text → Option (ℕ × ℕ)
ends_said s = elim (split_status_range s) [
  | some (lo, hi) ↦ code_ends lo hi
  | none ↦ elim (atoi s) [ some n ↦ code_ends n n | none ↦ none ]
]

-- The ends of each text of a list, if all say some.
abbrev pub all_ends : List Text → Option (List (ℕ × ℕ))
all_ends [] = some []
all_ends (raw ∷ specs) = elim (ends_said (normalize_spec_text raw)) [
  | none ↦ none
  | some e ↦ elim (all_ends specs) [ none ↦ none | some es ↦ some (e ∷ es) ]
]

-- Whether a code is between the ends of one of them.
abbrev pub is_within : List (ℕ × ℕ) → ℕ → Bool
is_within [] n = false
is_within ((lo, hi) ∷ es) n = leb lo n && leb n hi || is_within es n

abbrev pub codes_from : ℕ → ℕ → List ℕ
codes_from c zero = []
codes_from c (suc n) = c ∷ codes_from (suc c) n

abbrev text_of : ℕ × ℕ → Text
text_of (lo, hi) = if lo == hi then itoa lo else itoa lo ++ status_range_sep ∷ itoa hi

range-code_ends :
    (lo hi : ℤ)
    → elim (check_status_code lo) [
      | none ↦ none
      | some l ↦ elim (check_status_code hi) [ none ↦ none | some h ↦ range_text l h ]
    ]
      ≡ elim (code_ends lo hi) [ none ↦ none | some e ↦ some (text_of e) ]
unfolding check_status_code range_text
range-code_ends (pos lo) (pos hi) = ground arith
range-code_ends (pos lo) (negsuc hi) = ground arith
range-code_ends (negsuc lo) hi = refl

single-code_ends :
    (n : ℤ)
    → elim (check_status_code n) [ none ↦ none | some c ↦ some (itoa c) ]
      ≡ elim (code_ends n n) [ none ↦ none | some e ↦ some (text_of e) ]
unfolding check_status_code
single-code_ends (pos n) = ground arith
single-code_ends (negsuc n) = refl

mark_from_lem :
    (c n : ℕ) (seen : ℕ → Bool) (k : ℕ)
    → mark_from c n seen k ≡ (leb c k && ltb k (c + n) || seen k)
unfolding mark_from mark
mark_from_lem c zero seen k = ground arith
mark_from_lem c (suc n) seen k = mark_from_lem (suc c) n (mark c seen) k ∙ ground arith

seen_from_lem : (c n : ℕ) (seen : ℕ → Bool) → seen_from c n seen ≡ keep seen (codes_from c n)
unfolding seen_from
seen_from_lem c zero seen = refl
seen_from_lem c (suc n) seen = ground (arith, seen_from_lem (suc c) n seen)

parse_normalized_lem :
    (s : Text) → parse_normalized s ≡ elim (ends_said s) [ none ↦ none | some e ↦ some (text_of e) ]
unfolding parse_normalized
parse_normalized_lem s = elim (Option-cases (split_status_range s)) [
  | inr ((lo, hi), e) ↦ ground (arith, e, range-code_ends lo hi)
  | inl e ↦ elim (Option-cases (atoi s)) [
    | inl q ↦ ground (arith, e, q)
    | inr (n, q) ↦ ground (arith, e, q, single-code_ends n)
  ]
]

parse_or_refuse :
    (s : Text)
    → elim s [ [] ↦ none | c ∷ t ↦ parse_normalized (c ∷ t) ]
      ≡ elim (ends_said s) [ none ↦ none | some e ↦ some (text_of e) ]
unfolding split_status_range cut atoi
parse_or_refuse [] = refl
parse_or_refuse (c ∷ t) = parse_normalized_lem (c ∷ t)

parse_status_spec_lem :
    (raw : Text)
    → parse_status_spec raw
      ≡ elim (ends_said (normalize_spec_text raw)) [ none ↦ none | some e ↦ some (text_of e) ]
unfolding parse_status_spec
parse_status_spec_lem raw = parse_or_refuse (normalize_spec_text raw)

code_ends-inside :
    (lo hi : ℤ) (l h : ℕ)
    → code_ends lo hi ≡ some (l, h)
    → (status_code_min ≤ l) × (l ≤ h) × (h ≤ status_code_max)
code_ends-inside (pos lo) (pos hi) l h e = (ground (arith, e), ground (arith, e), ground (arith, e))
code_ends-inside (pos lo) (negsuc hi) l h e = ground (arith, e)
code_ends-inside (negsuc lo) hi l h e = ground (arith, e)

ends_said-inside :
    (s : Text) (l h : ℕ)
    → ends_said s ≡ some (l, h)
    → (status_code_min ≤ l) × (l ≤ h) × (h ≤ status_code_max)
ends_said-inside s l h e = elim (Option-cases (split_status_range s)) [
  | inr ((lo, hi), q) ↦ code_ends-inside lo hi l h (ground (arith, e, q))
  | inl p ↦ elim (Option-cases (atoi s)) [
    | inl q ↦ ground (arith, e, p, q)
    | inr (n, q) ↦ code_ends-inside n n l h (ground (arith, e, p, q))
  ]
]

mark_spec-itoa :
    (c : ℕ) (seen : ℕ → Bool)
    → status_code_min ≤ c
    → c ≤ status_code_max
    → (k : ℕ) → mark_spec (itoa c) seen k ≡ (k == c || seen k)
unfolding mark_spec mark_code mark
mark_spec-itoa c seen l m k =
    let p = split-itoa c l m in
    let q = atoi-itoa c l m in rw (p, mark_spec) (rw (q, mark_code) refl)

mark_spec-range :
    (lo hi : ℕ) (seen : ℕ → Bool)
    → status_code_min ≤ lo
    → lo < hi
    → hi ≤ status_code_max
    → (k : ℕ)
    → mark_spec (itoa lo ++ status_range_sep ∷ itoa hi) seen k ≡ (leb lo k && leb k hi || seen k)
unfolding mark_spec mark_range
mark_spec-range lo hi seen l m h k =
    let (_, p) = split-range_text lo hi l m h in
    rw (p, mark_spec) (mark_from_lem lo (suc hi - lo) seen k ∙ ground arith)

-- What the text of two ends marks.
mark_spec-text_of :
    (lo hi : ℕ) (seen : ℕ → Bool)
    → status_code_min ≤ lo
    → lo ≤ hi
    → hi ≤ status_code_max
    → (k : ℕ) → mark_spec (text_of (lo, hi)) seen k ≡ (leb lo k && leb k hi || seen k)
mark_spec-text_of lo hi seen l m h k = elim (Bool-cases (lo == hi)) [
  | inl e ↦ rw (e) (mark_spec-itoa lo seen l (omega arith) k ∙ ground (arith, e))
  | inr e ↦ rw (e) (mark_spec-range lo hi seen l (ground (arith, e)) h k)
]

or_swap : (a b c d : Bool) → b ≡ (c || d) → (a || b) ≡ ((c || a) || d)
or_swap true b true d h = refl
or_swap true b false d h = refl
or_swap false b true d h = h
or_swap false b false d h = h

abbrev within_or : List (ℕ × ℕ) → (ℕ → Bool) → ℕ → Bool
within_or es seen k = is_within es k || seen k

-- What a first text adds to the others.
within_or-text_of :
    (es : List (ℕ × ℕ)) (lo hi : ℕ) (seen : ℕ → Bool)
    → (status_code_min ≤ lo) × (lo ≤ hi) × (hi ≤ status_code_max)
    → within_or es (mark_spec (text_of (lo, hi)) seen) ≡ within_or ((lo, hi) ∷ es) seen
within_or-text_of es lo hi seen (l, m, h) = fun_ext (λ k.
    or_swap (is_within es k) (mark_spec (text_of (lo, hi)) seen k) (leb lo k && leb k hi) (seen k)
      (mark_spec-text_of lo hi seen l m h k))

mark_specs_lem :
    (specs : List Text) (seen : ℕ → Bool)
    → mark_specs specs seen
      ≡ elim (all_ends specs) [ none ↦ none | some es ↦ some (within_or es seen) ]
unfolding mark_specs
mark_specs_lem [] seen = refl
mark_specs_lem (raw ∷ specs) seen =
    let p = parse_status_spec_lem raw in
    elim (Option-cases (ends_said (normalize_spec_text raw))) [
      | inl e ↦ ground (arith, e, p)
      | inr ((lo, hi), e) ↦
          let q = mark_specs_lem specs (mark_spec (text_of (lo, hi)) seen) in
          elim (Option-cases (all_ends specs)) [
            | inl f ↦ ground (arith, e, p, q, f)
            | inr (es, f) ↦
                let w =
                  within_or-text_of es lo hi seen
                    (ends_said-inside (normalize_spec_text raw) lo hi e) in
                ground (arith, e, p, q, f, w)
          ]
    ]

or_false : (a : Bool) → (a || false) ≡ a
or_false true = refl
or_false false = refl

within_or-nothing : (es : List (ℕ × ℕ)) → within_or es (λ n. false) ≡ is_within es
within_or-nothing es = fun_ext (λ k. or_false (is_within es k))

-- Expanding a list of texts fails if one of them says no codes, and is otherwise the ascending list
-- of the codes from 100 to 599 that are between the ends of one of them.
pub expand_status_specs_lem :
    (specs : List Text)
    → expand_status_specs specs ≡ elim (all_ends specs) [
      | none ↦ none
      | some es ↦ some (keep (is_within es) (codes_from status_code_min 500))
    ]
unfolding expand_status_specs
expand_status_specs_lem specs =
    let p = mark_specs_lem specs (λ n. false) in
    elim (Option-cases (all_ends specs)) [
      | inl e ↦ ground (arith, p, e)
      | inr (es, e) ↦
          let q = seen_from_lem status_code_min 500 (within_or es (λ n. false)) in
          let r = ap (λ s. some (keep s (codes_from status_code_min 500))) (within_or-nothing es) in
          ground (arith, p, e, q, r)
    ]
