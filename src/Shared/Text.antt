-- ===== src/Shared/Text.antt =====
-- What the services use of the strings of the language: `length`, `toLowerCase`, `trim`, and the
-- decimal print of a number. Letters outside ASCII are taken to be in lower case already.
use Prim.Native.String.{◌++◌ as str_append}
use Prim.Native.Char.{Char, code}
use prismacv_backend.Shared.{
  ℕ, zero, suc, ◌+◌, ◌-◌, ◌/◌, ◌%◌, ◌≡◌, refl, String, Bool, ◌&&◌, ◌||◌, if◌then◌else◌, leb, ltb,
  ◌==◌, str_eq,
}

-- `s.length` counts the 16-bit units of the text.
abbrev pub js_length : String → ℕ
js_length String.[] = 0
js_length (String.◌∷◌ c s) = (if ltb (code c) 0x10000 then 1 else 2) + js_length s

-- `s.charAt(i)`, or a given character past the end.
abbrev pub char_or : Char → String → ℕ → Char
char_or d String.[] i = d
char_or d (String.◌∷◌ c s) zero = c
char_or d (String.◌∷◌ c s) (suc i) = char_or d s i

unfoldable pub to_lower : Char → Char
to_lower c =
    if leb b'A' (code c) && leb (code c) b'Z'
    then char_or c "abcdefghijklmnopqrstuvwxyz" (code c - b'A')
    else c

unfoldable pub to_lower_case : String → String
unfolding to_lower
to_lower_case String.[] = ""
to_lower_case (String.◌∷◌ c s) = String.◌∷◌ (to_lower c) (to_lower_case s)

abbrev pub is_space : Char → Bool
is_space c =
    code c == 32
    || leb 9 (code c) && leb (code c) 13
    || code c == 160
    || code c == 0x1680
    || leb 0x2000 (code c) && leb (code c) 0x200a
    || code c == 0x2028
    || code c == 0x2029
    || code c == 0x202f
    || code c == 0x205f
    || code c == 0x3000
    || code c == 0xfeff

unfoldable pub trim_start : String → String
trim_start String.[] = ""
trim_start (String.◌∷◌ c s) = if is_space c then trim_start s else String.◌∷◌ c s

unfoldable pub trim_end : String → String
trim_end String.[] = ""
trim_end (String.◌∷◌ c s) =
    let rest = trim_end s in if str_eq rest "" && is_space c then "" else String.◌∷◌ c rest

unfoldable pub trim : String → String
unfolding trim_start trim_end
trim s = trim_end (trim_start s)

-- `s + t`
infixr 66 ◌&◌
abbrev pub ◌&◌ : String → String → String
s & t = str_append s t

abbrev pub digit : ℕ → Char
digit n = char_or "0" "0123456789" n

digits_of : ℕ → ℕ → String → String
digits_of zero n acc = acc
digits_of (suc fuel) n acc =
    let more = digits_of fuel (n / 10) (String.◌∷◌ (digit (n % 10)) acc) in
    if ltb n 10 then String.◌∷◌ (digit n) acc else more

-- `n.toString()`. A number has fewer decimal digits than its successor, the fuel.
unfoldable pub to_string : ℕ → String
unfolding digits_of
to_string n = digits_of (suc n) n ""

digits_36 : ℕ → ℕ → String → String
digits_36 zero n acc = acc
digits_36 (suc fuel) n acc =
    let last = char_or (digit 0) "0123456789abcdefghijklmnopqrstuvwxyz" (n % 36) in
    let more = digits_36 fuel (n / 36) (String.◌∷◌ last acc) in
    if ltb n 36 then String.◌∷◌ last acc else more

-- `n.toString(36)`; 16 digits are enough for every number below 2 ^ 53.
unfoldable pub to_base_36 : ℕ → String
unfolding digits_36
to_base_36 n = digits_36 16 n ""

to_base_36_test : to_base_36 1700000000000 ≡ "loyw3v28"
unfolding to_base_36
to_base_36_test = refl

to_string_test : to_string 409670 ≡ "409670"
unfolding to_string
to_string_test = refl

lower_test : to_lower_case "Ann@X.io" ≡ "ann@x.io"
unfolding to_lower_case
lower_test = refl

trim_test : trim "  ann x " ≡ "ann x"
unfolding trim
trim_test = refl
