-- ===== src/StatusSpec.antt =====
-- shared/checkconfig/status.go: the status codes that a monitor expects. A text is the list of its
-- characters; where the source makes an error, the result is `none`, without its message.
pub mod Codes
pub mod Expanded
use uptime_mesh.Prelude.{
  ℕ, zero, suc, ◌+◌, ◌-◌, ◌*◌, ◌/◌, ◌%◌, ◌^◌, Bool, true, false, not, ◌&&◌, ◌||◌, List, [], ◌∷◌,
  ◌++◌, Option, none, some, ltb, leb, ◌==◌, if◌then◌else◌,
}

abbrev pub Text : Type 0
Text = List ℕ

-- The whole numbers, over the native ℕ.
pub data ℤ : Type 0 where
  pos : ℕ → ℤ
  negsuc : ℕ → ℤ

-- `~` and `-`
abbrev pub status_range_sep : ℕ
status_range_sep = 126

abbrev pub hyphen : ℕ
hyphen = 45

abbrev pub status_code_min : ℕ
status_code_min = 100

abbrev pub status_code_max : ℕ
status_code_max = 599

-- `unicode.IsSpace` and `strings.TrimSpace`
unfoldable pub is_space : ℕ → Bool
is_space c =
    leb 9 c && leb c 13
    || c == 32
    || c == 133
    || c == 160
    || c == 5760
    || leb 8192 c && leb c 8202
    || c == 8232
    || c == 8233
    || c == 8239
    || c == 8287
    || c == 12288

unfoldable pub trim_left : Text → Text
trim_left [] = []
trim_left (c ∷ s) = if is_space c then trim_left s else c ∷ s

unfoldable pub trim_right : Text → Text
trim_right [] = []
trim_right (c ∷ s) = elim (trim_right s) [
  | [] ↦ if is_space c then [] else c ∷ []
  | d ∷ t ↦ c ∷ d ∷ t
]

unfoldable pub trim_space : Text → Text
trim_space s = trim_right (trim_left s)

-- `strconv.Atoi` on 64 bits
unfoldable pub atoi_digits : ℕ → Text → Option ℕ
atoi_digits n [] = some n
atoi_digits n (c ∷ s) = if leb 48 c && leb c 57 then atoi_digits (n * 10 + (c - 48)) s else none

unfoldable pub atoi_unsigned : Text → Option ℕ
atoi_unsigned [] = none
atoi_unsigned (c ∷ s) = atoi_digits 0 (c ∷ s)

unfoldable pub negated : ℕ → ℤ
negated zero = pos zero
negated (suc n) = negsuc n

unfoldable pub up_to : ℕ → (ℕ → ℤ) → Option ℕ → Option ℤ
up_to bound sign none = none
up_to bound sign (some n) = if leb n bound then some (sign n) else none

unfoldable pub atoi : Text → Option ℤ
atoi [] = none
atoi (c ∷ s) =
    if c == hyphen
    then up_to (2 ^ 63) negated (atoi_unsigned s)
    else if c == 43
    then up_to (2 ^ 63 - 1) pos (atoi_unsigned s)
    else up_to (2 ^ 63 - 1) pos (atoi_unsigned (c ∷ s))

-- `strconv.Itoa`: a number that is checked to be a status code has no sign; 20 digits are enough for
-- any number of 64 bits.
unfoldable pub itoa_digits : ℕ → ℕ → Text → Text
itoa_digits zero n s = s
itoa_digits (suc fuel) n s =
    let rest = itoa_digits fuel (n / 10) ((48 + n % 10) ∷ s) in
    if n / 10 == 0 then (48 + n % 10) ∷ s else rest

unfoldable pub itoa : ℕ → Text
itoa n = itoa_digits 20 n []

-- The text before and after a character's first place.
unfoldable pub cut : ℕ → Text → Option (Text × Text)
cut sep [] = none
cut sep (c ∷ s) =
    let rest = cut sep s in
    if c == sep then some ([], s) else elim rest [ none ↦ none | some (a, b) ↦ some (c ∷ a, b) ]

unfoldable pub ends_of : Text × Text → Option (ℤ × ℤ)
ends_of (a, b) = elim (atoi (trim_space a)) [
  | none ↦ none
  | some lo ↦ elim (atoi (trim_space b)) [ none ↦ none | some hi ↦ some (lo, hi) ]
]

unfoldable pub split_status_range : Text → Option (ℤ × ℤ)
split_status_range s = elim (cut status_range_sep s) [
  | some parts ↦ ends_of parts
  | none ↦ elim (cut hyphen s) [ some parts ↦ ends_of parts | none ↦ none ]
]

unfoldable pub replaced : ℕ → Text
replaced c =
    if c == 12288
    then []
    else if c == 65374
    then status_range_sep ∷ []
    else if c == 65293 || c == 8212
    then hyphen ∷ []
    else c ∷ []

unfoldable pub replace_all : Text → Text
replace_all [] = []
replace_all (c ∷ s) = replaced c ++ replace_all s

unfoldable pub normalize_spec_text : Text → Text
normalize_spec_text raw = replace_all (trim_space raw)

-- The number, where `checkStatusCode` makes no error of it.
unfoldable pub check_status_code : ℤ → Option ℕ
check_status_code (negsuc n) = none
check_status_code (pos n) = if ltb n status_code_min || ltb status_code_max n then none else some n

unfoldable pub range_text : ℕ → ℕ → Option Text
range_text lo hi =
    if ltb hi lo
    then none
    else if lo == hi
    then some (itoa lo)
    else some (itoa lo ++ status_range_sep ∷ itoa hi)

-- The rest of `ParseStatusSpec`, after `s == ""`.
unfoldable pub parse_normalized : Text → Option Text
parse_normalized s = elim (split_status_range s) [
  | some (lo, hi) ↦ elim (check_status_code lo) [
    | none ↦ none
    | some l ↦ elim (check_status_code hi) [ none ↦ none | some h ↦ range_text l h ]
  ]
  | none ↦ elim (atoi s) [
    | none ↦ none
    | some n ↦ elim (check_status_code n) [ none ↦ none | some c ↦ some (itoa c) ]
  ]
]

unfoldable pub parse_status_spec : Text → Option Text
parse_status_spec raw = elim (normalize_spec_text raw) [
  | [] ↦ none
  | c ∷ s ↦ parse_normalized (c ∷ s)
]

-- The set `seen`. A status code has no sign, and the set is read at status codes only, so marks below
-- zero are left out.
unfoldable pub mark : ℕ → (ℕ → Bool) → ℕ → Bool
mark c seen n = n == c || seen n

-- `n` steps of the loop of a range, from `c`.
unfoldable pub mark_from : ℕ → ℕ → (ℕ → Bool) → ℕ → Bool
mark_from c zero seen = seen
mark_from c (suc n) seen = mark_from (suc c) n (mark c seen)

unfoldable pub mark_range : ℤ → ℤ → (ℕ → Bool) → ℕ → Bool
mark_range lo (negsuc hi) seen = seen
mark_range (negsuc lo) (pos hi) seen = mark_from 0 (suc hi) seen
mark_range (pos lo) (pos hi) seen = mark_from lo (suc hi - lo) seen

-- The number of `n, _ := strconv.Atoi(spec)`. With an error it is 0, or the bound of 64 bits that the
-- text exceeds, which is no status code either and is left out.
unfoldable pub mark_code : Option ℤ → (ℕ → Bool) → ℕ → Bool
mark_code none seen = mark 0 seen
mark_code (some (pos n)) seen = mark n seen
mark_code (some (negsuc n)) seen = seen

unfoldable pub mark_spec : Text → (ℕ → Bool) → ℕ → Bool
mark_spec spec seen = elim (split_status_range spec) [
  | some (lo, hi) ↦ mark_range lo hi seen
  | none ↦ mark_code (atoi spec) seen
]

unfoldable pub mark_specs : List Text → (ℕ → Bool) → Option (ℕ → Bool)
mark_specs [] seen = some seen
mark_specs (raw ∷ specs) seen = elim (parse_status_spec raw) [
  | none ↦ none
  | some spec ↦ mark_specs specs (mark_spec spec seen)
]

-- The codes that are seen, of `n` from `c` on.
unfoldable pub seen_from : ℕ → ℕ → (ℕ → Bool) → List ℕ
seen_from c zero seen = []
seen_from c (suc n) seen = let rest = seen_from (suc c) n seen in if seen c then c ∷ rest else rest

unfoldable pub expand_status_specs : List Text → Option (List ℕ)
expand_status_specs specs = elim (mark_specs specs (λ n. false)) [
  | none ↦ none
  | some seen ↦ some (seen_from status_code_min (suc status_code_max - status_code_min) seen)
]

-- `StatusSpecsFromCodes`, of codes that have no sign
unfoldable pub status_specs_from_codes : List ℕ → List Text
status_specs_from_codes [] = []
status_specs_from_codes (c ∷ codes) = itoa c ∷ status_specs_from_codes codes
