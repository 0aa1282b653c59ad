-- ===== src/Store/Id.antt =====
-- `IDFromHex` of dashboard/internal/store/db.go: 24 hexadecimal digits, taken in lower case.
use Prim.Native.Char.{Char, code}
use uptime_mesh.Prelude.{
  ℕ, suc, ◌≡◌, refl, Bool, true, ◌&&◌, ◌||◌, Option, none, some, String, leb, ◌==◌, if◌then◌else◌,
}

abbrev pub count : String → ℕ
count String.[] = 0
count (String.◌∷◌ c s) = suc (count s)

abbrev pub is_hex : ℕ → Bool
is_hex c = leb b'0' c && leb c b'9' || leb b'a' c && leb c b'f' || leb b'A' c && leb c b'F'

abbrev pub all_hex : String → Bool
all_hex String.[] = true
all_hex (String.◌∷◌ c s) = is_hex (code c) && all_hex s

-- `strings.ToLower`, on the letters that a hexadecimal digit can be.
abbrev pub lower : Char → Char
lower c =
    let k = code c in
    if k == b'A'
    then "a"
    else if k == b'B'
    then "b"
    else if k == b'C'
    then "c"
    else if k == b'D'
    then "d"
    else if k == b'E'
    then "e"
    else if k == b'F'
    then "f"
    else c

abbrev pub to_lower : String → String
to_lower String.[] = String.[]
to_lower (String.◌∷◌ c s) = String.◌∷◌ (lower c) (to_lower s)

unfoldable pub id_from_hex : String → Option String
id_from_hex s = if count s == 24 && all_hex s then some (to_lower s) else none

id_from_hex_upper : id_from_hex "6AA3EAEA721B7851DAC0D93E" ≡ some "6aa3eaea721b7851dac0d93e"
unfolding id_from_hex
id_from_hex_upper = refl

id_from_hex_short : id_from_hex "external" ≡ none
unfolding id_from_hex
id_from_hex_short = refl
