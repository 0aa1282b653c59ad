-- ===== src/Probe/Keyword.antt =====
-- shared/probe/keyword.go: the search for keywords in a body, a list of bytes, and the second view of
-- it in which the escapes of its JSON strings are decoded. `valid` is `json.Valid`, a parameter. The
-- loop over the body runs on fuel, the length of the body.
pub mod Escapes
pub mod Found
pub mod Fuel
use uptime_mesh.Prelude.{
  ℕ, zero, suc, ◌+◌, ◌-◌, ◌*◌, ◌/◌, ◌%◌, Bool, true, false, not, ◌&&◌, ◌||◌, List, [], ◌∷◌, ◌++◌,
  Option, none, some, ltb, leb, ◌==◌, if◌then◌else◌, length, any,
}

abbrev pub backslash : ℕ
backslash = 92

-- A digit of `parseHex4`.
unfoldable pub hex_value : ℕ → Option ℕ
hex_value c =
    if leb 48 c && leb c 57
    then some (c - 48)
    else if leb 97 c && leb c 102
    then some (c - 97 + 10)
    else if leb 65 c && leb c 70
    then some (c - 65 + 10)
    else none

-- The loop of `parseHex4`; four digits stay far below 2 ^ 32.
unfoldable pub parse_hex : ℕ → List ℕ → Option ℕ
parse_hex v [] = some v
parse_hex v (c ∷ b) = elim (hex_value c) [ none ↦ none | some d ↦ parse_hex (v * 16 + d) b ]

-- `utf16.IsSurrogate` and `utf16.DecodeRune`, where `none` is `utf8.RuneError`.
abbrev pub is_surrogate : ℕ → Bool
is_surrogate r = leb 55296 r && ltb r 57344

abbrev pub decode_rune : ℕ → ℕ → Option ℕ
decode_rune hi lo =
    if leb 55296 hi && (ltb hi 56320 && (leb 56320 lo && ltb lo 57344))
    then some ((hi - 55296) * 1024 + (lo - 56320) + 65536)
    else none

-- What follows the first four bytes, which were no surrogate's half or its first.
unfoldable pub low_half : ℕ → List ℕ → Option (ℕ × List ℕ)
low_half hi (a ∷ b ∷ c ∷ d ∷ e ∷ f ∷ left) =
    if a == backslash && b == 117
    then elim (parse_hex 0 (c ∷ d ∷ e ∷ f ∷ [])) [
      | none ↦ none
      | some lo ↦ elim (decode_rune hi lo) [ none ↦ none | some r ↦ some (r, left) ]
    ]
    else none
low_half hi _ = none

-- The character, and the bytes after the escape in place of the number of bytes that it takes.
unfoldable pub decode_unicode_escape : List ℕ → Option (ℕ × List ℕ)
decode_unicode_escape (a ∷ b ∷ c ∷ d ∷ left) = elim (parse_hex 0 (a ∷ b ∷ c ∷ d ∷ [])) [
  | none ↦ none
  | some hi ↦ if is_surrogate hi then low_half hi left else some (hi, left)
]
decode_unicode_escape _ = none

-- `WriteRune`: UTF-8.
unfoldable pub write_rune : ℕ → List ℕ
write_rune r =
    if ltb r 128
    then r ∷ []
    else if ltb r 2048
    then (192 + r / 64) ∷ (128 + r % 64) ∷ []
    else if ltb r 65536
    then (224 + r / 4096) ∷ (128 + r / 64 % 64) ∷ (128 + r % 64) ∷ []
    else (240 + r / 262144) ∷ (128 + r / 4096 % 64) ∷ (128 + r / 64 % 64) ∷ (128 + r % 64) ∷ []

-- The escapes of one character.
abbrev pub simple_escape : ℕ → Option ℕ
simple_escape n =
    if n == 34 || (n == 92 || n == 47)
    then some n
    else if n == 110
    then some 10
    else if n == 114
    then some 13
    else if n == 116
    then some 9
    else if n == 98
    then some 8
    else if n == 102
    then some 12
    else none

-- One turn of the loop at the byte `c`: what it writes, and what is left.
unfoldable pub decode_unit : ℕ → List ℕ → List ℕ × List ℕ
decode_unit c [] = (c ∷ [], [])
decode_unit c (n ∷ rest) =
    if c == backslash
    then elim (simple_escape n) [
      | some plain ↦ (plain ∷ [], rest)
      | none ↦
          if n == 117
          then elim (decode_unicode_escape rest) [
            | none ↦ (c ∷ [], n ∷ rest)
            | some (r, left) ↦ (write_rune r, left)
          ]
          else (c ∷ [], n ∷ rest)
    ]
    else (c ∷ [], n ∷ rest)

unfoldable pub decode_loop : ℕ → List ℕ → List ℕ
decode_loop zero body = []
decode_loop (suc fuel) [] = []
decode_loop (suc fuel) (c ∷ rest) =
    let (written, left) = decode_unit c rest in written ++ decode_loop fuel left

abbrev pub has_backslash : List ℕ → Bool
has_backslash body = any (λ c. c == backslash) body

abbrev pub is_nil : List ℕ → Bool
is_nil [] = true
is_nil (c ∷ body) = false

unfoldable pub decode_json_escapes : (List ℕ → Bool) → List ℕ → List ℕ
decode_json_escapes valid body =
    if is_nil body || (not (has_backslash body) || not (valid body))
    then []
    else decode_loop (length body) body

unfoldable pub keyword_candidates : (List ℕ → Bool) → List ℕ → List (List ℕ)
keyword_candidates valid body =
    let decoded = decode_json_escapes valid body in
    if is_nil decoded then body ∷ [] else body ∷ decoded ∷ []

-- `strings.Contains`
abbrev pub starts_with : List ℕ → List ℕ → Bool
starts_with text [] = true
starts_with [] (k ∷ ks) = false
starts_with (c ∷ text) (k ∷ ks) = c == k && starts_with text ks

unfoldable pub contains : List ℕ → List ℕ → Bool
contains [] keyword = is_nil keyword
contains (c ∷ text) keyword = starts_with (c ∷ text) keyword || contains text keyword

unfoldable pub contains_keyword : List (List ℕ) → List ℕ → Bool
contains_keyword cands keyword = any (λ text. contains text keyword) cands

-- The two loops: `false` where a keyword that is not empty is missing, or is there.
abbrev pub all_found : List (List ℕ) → List (List ℕ) → Bool
all_found cands [] = true
all_found cands (s ∷ rest) = (is_nil s || contains_keyword cands s) && all_found cands rest

abbrev pub none_found : List (List ℕ) → List (List ℕ) → Bool
none_found cands [] = true
none_found cands (s ∷ rest) = (is_nil s || not (contains_keyword cands s)) && none_found cands rest

unfoldable pub keyword_ok : (List ℕ → Bool) → List ℕ → List (List ℕ) → List (List ℕ) → Bool
keyword_ok valid body must must_not =
    let cands = keyword_candidates valid body in all_found cands must && none_found cands must_not
