-- ===== src/Probe/Keyword/Escapes.antt =====
-- The decoding of escapes (shared/probe/keyword.go) against an encoder that writes a text in ASCII.
use uptime_mesh.Prelude.{
  ℕ, zero, suc, ◌+◌, ◌-◌, ◌/◌, ◌%◌, ◌≤◌, ◌<◌, ◌≡◌, refl, sym, ap, ◌∙◌, Bool, true, false, not, ◌&&◌,
  List, [], ◌∷◌, ◌++◌, some, arith, ltb, ◌==◌, if◌then◌else◌, length, All, Bool-cases, inl, inr,
}
use uptime_mesh.Probe.Keyword.{
  backslash, hex_value, parse_hex, is_surrogate, decode_rune, low_half, decode_unicode_escape,
  write_rune, decode_unit, decode_loop,
}

-- A digit of four bits, and four of them.
abbrev pub hex_digit : ℕ → ℕ
hex_digit d = if ltb d 10 then 48 + d else 87 + d

abbrev pub unicode_escape : ℕ → List ℕ → List ℕ
unicode_escape n rest =
    backslash
    ∷ 117
    ∷ hex_digit (n / 4096)
    ∷ hex_digit (n / 256 % 16)
    ∷ hex_digit (n / 16 % 16)
    ∷ hex_digit (n % 16)
    ∷ rest

hex_value-hex_digit : (d : ℕ) → d < 16 → hex_value (hex_digit d) ≡ some d
unfolding hex_value
hex_value-hex_digit d h = ground arith

parse_hex-digits :
    (n : ℕ)
    → n < 65536
    → parse_hex 0 (
        hex_digit (n / 4096)
        ∷ hex_digit (n / 256 % 16)
        ∷ hex_digit (n / 16 % 16)
        ∷ hex_digit (n % 16)
        ∷ [])
      ≡ some n
unfolding parse_hex
parse_hex-digits n h = ground (
  arith,
  hex_value-hex_digit (n / 4096),
  hex_value-hex_digit (n / 256 % 16),
  hex_value-hex_digit (n / 16 % 16),
  hex_value-hex_digit (n % 16),
)

-- A character is written as it is, as one escape, or as the escapes of two surrogates: how an
-- encoder writes a JSON document that keeps to ASCII.
abbrev pub escaped_rune : ℕ → List ℕ → List ℕ
escaped_rune r rest =
    if ltb r 128 && not (r == backslash)
    then r ∷ rest
    else if ltb r 65536
    then unicode_escape r rest
    else unicode_escape (55296 + (r - 65536) / 1024)
        (unicode_escape (56320 + (r - 65536) % 1024) rest)

abbrev pub escaped : List ℕ → List ℕ
escaped [] = []
escaped (r ∷ rs) = escaped_rune r (escaped rs)

abbrev pub utf8 : List ℕ → List ℕ
utf8 [] = []
utf8 (r ∷ rs) = write_rune r ++ utf8 rs

-- A scalar value of Unicode.
abbrev pub is_scalar : ℕ → Bool
is_scalar r = ltb r 1114112 && not (is_surrogate r)

decode_unicode_escape-alone :
    (a b c d hi : ℕ) (rest : List ℕ)
    → parse_hex 0 (a ∷ b ∷ c ∷ d ∷ []) ≡ some hi
    → is_surrogate hi ≡ false
    → decode_unicode_escape (a ∷ b ∷ c ∷ d ∷ rest) ≡ some (hi, rest)
unfolding decode_unicode_escape
decode_unicode_escape-alone a b c d hi rest p s = ground (arith, p, s)

decode_unicode_escape-pair :
    (a b c d hi : ℕ) (rest : List ℕ)
    → parse_hex 0 (a ∷ b ∷ c ∷ d ∷ []) ≡ some hi
    → is_surrogate hi ≡ true
    → decode_unicode_escape (a ∷ b ∷ c ∷ d ∷ rest) ≡ low_half hi rest
unfolding decode_unicode_escape
decode_unicode_escape-pair a b c d hi rest p s = ground (arith, p, s)

decode_unicode_escape-one :
    (n : ℕ) (rest : List ℕ)
    → n < 65536
    → is_surrogate n ≡ false
    → decode_unicode_escape (
        hex_digit (n / 4096)
        ∷ hex_digit (n / 256 % 16)
        ∷ hex_digit (n / 16 % 16)
        ∷ hex_digit (n % 16)
        ∷ rest)
      ≡ some (n, rest)
decode_unicode_escape-one n rest h s =
    decode_unicode_escape-alone _ _ _ _ n rest (parse_hex-digits n h) s

-- The two halves of a character above the basic plane.
decode_rune-halves :
    (r : ℕ)
    → 65536 ≤ r
    → r < 1114112
    → decode_rune (55296 + (r - 65536) / 1024) (56320 + (r - 65536) % 1024) ≡ some r
decode_rune-halves r a b = ground arith

is_surrogate-high : (r : ℕ) → r < 1114112 → is_surrogate (55296 + (r - 65536) / 1024) ≡ true
is_surrogate-high r b = ground arith

low_half-digits :
    (hi n r : ℕ) (rest : List ℕ)
    → n < 65536
    → decode_rune hi n ≡ some r
    → low_half hi (unicode_escape n rest) ≡ some (r, rest)
unfolding low_half
low_half-digits hi n r rest h e = rw (parse_hex-digits n h, e) refl

decode_unicode_escape-two :
    (r : ℕ) (rest : List ℕ)
    → 65536 ≤ r
    → r < 1114112
    → let hi = 55296 + (r - 65536) / 1024 in
      decode_unicode_escape (
        hex_digit (hi / 4096)
        ∷ hex_digit (hi / 256 % 16)
        ∷ hex_digit (hi / 16 % 16)
        ∷ hex_digit (hi % 16)
        ∷ unicode_escape (56320 + (r - 65536) % 1024) rest)
      ≡ some (r, rest)
decode_unicode_escape-two r rest a b =
    let hi = 55296 + (r - 65536) / 1024 in
    let lo = 56320 + (r - 65536) % 1024 in
    decode_unicode_escape-pair _ _ _ _ hi (unicode_escape lo rest)
      (parse_hex-digits hi (omega arith)) (is_surrogate-high r b)
    ∙ (low_half-digits hi lo r rest (omega arith) (decode_rune-halves r a b))

-- One turn of the loop at an escape.
decode_unit-escape :
    (rest left : List ℕ) (r : ℕ)
    → decode_unicode_escape rest ≡ some (r, left)
    → decode_unit backslash (117 ∷ rest) ≡ (write_rune r, left)
unfolding decode_unit
decode_unit-escape rest left r e = rw (e, decode_unit) refl

decode_unit-plain :
    (c : ℕ) (rest : List ℕ) → (c == backslash) ≡ false → decode_unit c rest ≡ (c ∷ [], rest)
unfolding decode_unit
decode_unit-plain c [] h = refl
decode_unit-plain c (n ∷ rest) h = ground (arith, h)

decode_loop-unit :
    (fuel c : ℕ) (rest written left : List ℕ)
    → decode_unit c rest ≡ (written, left)
    → decode_loop (suc fuel) (c ∷ rest) ≡ written ++ decode_loop fuel left
unfolding decode_loop
decode_loop-unit fuel c rest written left e = rw e refl

pub write_rune-ascii : (r : ℕ) → r < 128 → write_rune r ≡ r ∷ []
unfolding write_rune
write_rune-ascii r h = ground arith

-- One turn of the loop at what stands for a character.
decode_loop-escaped_rune :
    (fuel r : ℕ) (rest : List ℕ)
    → is_scalar r ≡ true
    → decode_loop (suc fuel) (escaped_rune r rest) ≡ write_rune r ++ decode_loop fuel rest
decode_loop-escaped_rune fuel r rest h = elim (Bool-cases (ltb r 128 && not (r == backslash))) [
  | inl p ↦ rw p (
      decode_loop-unit fuel r rest (r ∷ []) rest (decode_unit-plain r rest (ground arith))
      ∙ ap (λ w. w ++ decode_loop fuel rest) (sym (write_rune-ascii r (ground arith))))
  | inr p ↦ elim (Bool-cases (ltb r 65536)) [
    | inl q ↦
        rw (p, q)
          (decode_loop-unit fuel backslash _ (write_rune r) rest (
            decode_unit-escape _ rest r
              (decode_unicode_escape-one r rest (ground arith) (ground arith))))
    | inr q ↦
        rw (p, q)
          (decode_loop-unit fuel backslash _ (write_rune r) rest (
            decode_unit-escape _ rest r
              (decode_unicode_escape-two r rest (ground arith) (ground arith))))
  ]
]

decode_loop-nothing : (fuel : ℕ) → decode_loop fuel [] ≡ []
unfolding decode_loop
decode_loop-nothing zero = refl
decode_loop-nothing (suc fuel) = refl

escaped_rune-length : (r : ℕ) (rest : List ℕ) → suc (length rest) ≤ length (escaped_rune r rest)
escaped_rune-length r rest = ground arith

-- Some characters, none of which is half a surrogate pair, are written in ASCII: the backslash and
-- what is not ASCII as `\\uXXXX`, and what is above the basic plane as two of these. Decoding what is written gives the text in UTF-8, with no fewer turns of
-- the loop than there are bytes.
pub decode_loop-escaped :
    (rs : List ℕ) (fuel : ℕ)
    → All (λ r. is_scalar r ≡ true) rs
    → length (escaped rs) ≤ fuel
    → decode_loop fuel (escaped rs) ≡ utf8 rs
decode_loop-escaped [] fuel s h = decode_loop-nothing fuel
decode_loop-escaped (r ∷ rs) zero s h = absurd (omega (arith, escaped_rune-length r (escaped rs)))
decode_loop-escaped (r ∷ rs) (suc fuel) (s, ss) h =
    decode_loop-escaped_rune fuel r (escaped rs) s
    ∙ ap (λ w. write_rune r ++ w)
        (decode_loop-escaped rs fuel ss (omega (arith, escaped_rune-length r (escaped rs))))
