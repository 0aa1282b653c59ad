-- ===== src/StatusSpec/Codes.antt =====
-- The texts of status codes (shared/checkconfig/status.go).
use mathlib.Core.Path.{subst}
use uptime_mesh.Prelude.{
  ℕ, zero, suc, ◌+◌, ◌≤◌, ◌<◌, ◌≡◌, refl, Bool, true, false, not, ◌&&◌, [], ◌∷◌, ◌++◌, Option, none,
  some, ◌==◌, arith, ap, Bool-cases, inl, inr,
}
use uptime_mesh.StatusSpec.{
  Text, ℤ, pos, negsuc, status_range_sep, is_space, trim_left, trim_right, trim_space, atoi_digits,
  atoi_unsigned, up_to, atoi, itoa_digits, itoa, cut, ends_of, split_status_range, range_text,
  hyphen, status_code_min, status_code_max,
}

abbrev lacks : ℕ → Text → Bool
lacks sep [] = true
lacks sep (c ∷ s) = not (c == sep) && lacks sep s

-- Whether a code's text has neither of the characters of a range, and is read as the code.
abbrev is_read : Text → ℕ → Bool
is_read s c = elim (atoi s) [ some (pos n) ↦ n == c | _ ↦ false ]

abbrev reads_back : ℕ → Bool
reads_back c =
    lacks status_range_sep (itoa c)
    && lacks hyphen (itoa c)
    && is_read (itoa c) c
    && is_read (trim_space (itoa c)) c

abbrev all_from : (ℕ → Bool) → ℕ → ℕ → Bool
all_from p c zero = true
all_from p c (suc n) = p c && all_from p (suc c) n

same : (a b : ℕ) → a == b ≡ true → a ≡ b
same a b h = ground arith

all_from-at : (p : ℕ → Bool) (c n k : ℕ) → all_from p c n ≡ true → c ≤ k → k < c + n → p k ≡ true
all_from-at p c zero k h l m = ground arith
all_from-at p c (suc n) k h l m = elim (Bool-cases (c == k)) [
  | inl e ↦ subst (λ j. p j ≡ true) (same c k e) (ground (arith, h))
  | inr e ↦ all_from-at p (suc c) n k (ground (arith, h)) (ground arith) (omega arith)
]

codes-reads_back : all_from reads_back status_code_min 500 ≡ true
unfolding itoa itoa_digits trim_space trim_left trim_right is_space atoi atoi_unsigned atoi_digits
    up_to
codes-reads_back = refl

cut-append : (sep : ℕ) (a b : Text) → lacks sep a ≡ true → cut sep (a ++ sep ∷ b) ≡ some (a, b)
unfolding cut
cut-append sep [] b h = ground arith
cut-append sep (x ∷ a) b h = ground (arith, h, cut-append sep a b)

cut-lacks : (sep : ℕ) (a : Text) → lacks sep a ≡ true → cut sep a ≡ none
unfolding cut
cut-lacks sep [] h = refl
cut-lacks sep (x ∷ a) h = ground (arith, h, cut-lacks sep a)

atoi-read :
    (c : ℕ) (o : Option ℤ) → elim o [ some (pos n) ↦ n == c | _ ↦ false ] ≡ true → o ≡ some (pos c)
atoi-read c none h = ground arith
atoi-read c (some (pos n)) h = ap (λ m. some (pos m)) (ground arith)
atoi-read c (some (negsuc n)) h = ground arith

-- What `reads_back` finds.
module _ (c : ℕ) (l : status_code_min ≤ c) (m : c ≤ status_code_max) where
  code-reads_back : reads_back c ≡ true
  code-reads_back = all_from-at reads_back status_code_min 500 c codes-reads_back l (omega arith)

  itoa-sep : lacks status_range_sep (itoa c) ≡ true
  itoa-sep = ground (arith, code-reads_back)

  itoa-hyphen : lacks hyphen (itoa c) ≡ true
  itoa-hyphen = ground (arith, code-reads_back)

  pub atoi-itoa : atoi (itoa c) ≡ some (pos c)
  atoi-itoa = atoi-read c (atoi (itoa c)) (ground (arith, code-reads_back))

  atoi-trim_space : atoi (trim_space (itoa c)) ≡ some (pos c)
  atoi-trim_space = atoi-read c (atoi (trim_space (itoa c))) (ground (arith, code-reads_back))

  -- The text of a code is no range.
  pub split-itoa : split_status_range (itoa c) ≡ none
  unfolding split_status_range
  split-itoa =
      ground
        (arith, cut-lacks status_range_sep (itoa c) itoa-sep, cut-lacks hyphen (itoa c) itoa-hyphen)

-- The text that `ParseStatusSpec` makes of two codes is a range, and is read as the two.
pub split-range_text :
    (lo hi : ℕ)
    → status_code_min ≤ lo
    → lo < hi
    → hi ≤ status_code_max
    → (range_text lo hi ≡ some (itoa lo ++ status_range_sep ∷ itoa hi))
      × (split_status_range (itoa lo ++ status_range_sep ∷ itoa hi) ≡ some (pos lo, pos hi))
unfolding split_status_range ends_of range_text
split-range_text lo hi l m h =
    let c = cut-append status_range_sep (itoa lo) (itoa hi) (itoa-sep lo l (omega arith)) in
    let a = atoi-trim_space lo l (omega arith) in
    let b = atoi-trim_space hi (omega arith) h in (ground arith, ground (arith, c, a, b))
