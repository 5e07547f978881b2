-- ===== src/Text/Defs.antt =====
-- Go strings as their bytes: the functions of strings and strconv that the API calls.
use Prim.Native.Char.{code}
use railway.Base.{
  ℕ, zero, suc, ◌+◌, ◌-◌, ◌*◌, ◌^◌, String, Bool, true, false, ◌&&◌, ◌||◌, Option, none, some, List,
  [], ◌∷◌, reverse, leb, ltb, ◌==◌, if◌then◌else◌, length,
}
use railway.Base.Int.{ℤ, pos, negsuc}

-- A Go string or a []byte.
abbrev pub Text : Type 0
Text = List ℕ

-- The bytes of an ASCII literal of the source. Shut, so that a message is one unknown to a proof.
unfoldable pub codes : String → Text
codes String.[] = []
codes (String.◌∷◌ c s) = code c ∷ codes s

-- s == ""
abbrev pub is_empty : Text → Bool
is_empty [] = true
is_empty (c ∷ s) = false

-- s == t
unfoldable pub text_eq : Text → Text → Bool
text_eq [] [] = true
text_eq (c ∷ s) (d ∷ t) = c == d && text_eq s t
text_eq _ _ = false

-- strings.HasPrefix(s, p)
unfoldable pub has_prefix : Text → Text → Bool
has_prefix s [] = true
has_prefix [] (d ∷ p) = false
has_prefix (c ∷ s) (d ∷ p) = c == d && has_prefix s p

-- s without its first n bytes
unfoldable pub drop : ℕ → Text → Text
drop zero s = s
drop (suc n) [] = []
drop (suc n) (c ∷ s) = drop n s

-- strings.TrimPrefix(s, p)
unfoldable pub trim_prefix : Text → Text → Text
unfolding has_prefix drop
trim_prefix s p = if has_prefix s p then drop (length p) s else s

-- strings.Contains(s, p)
unfoldable pub contains : Text → Text → Bool
unfolding has_prefix
contains [] p = has_prefix [] p
contains (c ∷ s) p = has_prefix (c ∷ s) p || contains s p

-- The UTF-8 encodings of the characters that unicode.IsSpace accepts: U+0009 to U+000D, U+0020,
-- U+0085, U+00A0, U+1680, U+2000 to U+200A, U+2028, U+2029, U+202F, U+205F and U+3000.
unfoldable pub is_space_3 : ℕ → ℕ → ℕ → Bool
is_space_3 a b c =
    a == 0xe1 && b == 0x9a && c == 0x80
    || a == 0xe2 && b == 0x80 && (leb 0x80 c && leb c 0x8a || c == 0xa8 || c == 0xa9 || c == 0xaf)
    || a == 0xe2 && b == 0x81 && c == 0x9f
    || a == 0xe3 && b == 0x80 && c == 0x80

unfoldable pub is_space_1 : ℕ → Bool
is_space_1 a = leb 9 a && leb a 13 || a == 0x20

unfoldable pub is_space_2 : ℕ → ℕ → Bool
is_space_2 a b = a == 0xc2 && (b == 0x85 || b == 0xa0)

-- s without the spaces at its front.
unfoldable pub trim_left : Text → Text
unfolding is_space_1 is_space_2 is_space_3
trim_left [] = []
trim_left (a ∷ []) = if is_space_1 a then [] else a ∷ []
trim_left (a ∷ b ∷ []) =
    let one = trim_left (b ∷ []) in
    if is_space_1 a then one else if is_space_2 a b then [] else a ∷ b ∷ []
trim_left (a ∷ b ∷ c ∷ s) =
    let one = trim_left (b ∷ c ∷ s) in
    let two = trim_left (c ∷ s) in
    let three = trim_left s in
    if is_space_1 a
    then one
    else if is_space_2 a b
    then two
    else if is_space_3 a b c
    then three
    else a ∷ b ∷ c ∷ s

-- The same over a reversed text.
unfoldable pub trim_left_reversed : Text → Text
unfolding is_space_1 is_space_2 is_space_3
trim_left_reversed [] = []
trim_left_reversed (a ∷ []) = if is_space_1 a then [] else a ∷ []
trim_left_reversed (b ∷ a ∷ []) =
    let one = trim_left_reversed (a ∷ []) in
    if is_space_1 b then one else if is_space_2 a b then [] else b ∷ a ∷ []
trim_left_reversed (c ∷ b ∷ a ∷ s) =
    let one = trim_left_reversed (b ∷ a ∷ s) in
    let two = trim_left_reversed (a ∷ s) in
    let three = trim_left_reversed s in
    if is_space_1 c
    then one
    else if is_space_2 b c
    then two
    else if is_space_3 a b c
    then three
    else c ∷ b ∷ a ∷ s

-- strings.TrimSpace(s)
unfoldable pub trim_space : Text → Text
unfolding trim_left trim_left_reversed
trim_space s = reverse (trim_left_reversed (reverse (trim_left s)))

abbrev lower : ℕ → ℕ
lower c = if leb b'A' c && leb c b'Z' then c + 32 else c

-- The effect of strings.ToLower as far as a search for an ASCII word can see it: the letters A to Z,
-- and the two characters outside ASCII whose lower case is ASCII, U+0130 (i) and U+212A (k). The
-- others have a lower case outside ASCII and are left as they are.
unfoldable pub to_lower : Text → Text
to_lower [] = []
to_lower (a ∷ []) = lower a ∷ []
to_lower (a ∷ b ∷ []) =
    let rest = to_lower (b ∷ []) in if a == 0xc4 && b == 0xb0 then b'i' ∷ [] else lower a ∷ rest
to_lower (a ∷ b ∷ c ∷ s) =
    let rest = to_lower (b ∷ c ∷ s) in
    let after_two = to_lower (c ∷ s) in
    let after_three = to_lower s in
    if a == 0xc4 && b == 0xb0
    then b'i' ∷ after_two
    else if a == 0xe2 && b == 0x84 && c == 0xaa
    then b'k' ∷ after_three
    else lower a ∷ rest

unfoldable pub is_digit : ℕ → Bool
is_digit c = leb b'0' c && leb c b'9'

-- The value of a text of decimal digits, most significant first, after `acc`; `none` where another
-- byte stands.
unfoldable pub digits_value : ℕ → Text → Option ℕ
unfolding is_digit
digits_value acc [] = some acc
digits_value acc (c ∷ s) =
    let rest = digits_value (acc * 10 + (c - b'0')) s in if is_digit c then rest else none

-- One digit at least.
unfoldable pub decimal : Text → Option ℕ
unfolding digits_value
decimal [] = none
decimal (c ∷ s) = digits_value 0 (c ∷ s)

abbrev pub negate : ℕ → ℤ
negate zero = pos 0
negate (suc n) = negsuc n

abbrev pub map_value : (ℕ → ℤ) → Option ℕ → Option ℤ
map_value f none = none
map_value f (some n) = some (f n)

-- An optional sign and decimal digits, of any size: what new(big.Int).SetString(s, 10) reads.
unfoldable pub set_string_10 : Text → Option ℤ
unfolding decimal
set_string_10 [] = none
set_string_10 (c ∷ s) =
    if c == b'-'
    then map_value negate (decimal s)
    else if c == b'+'
    then map_value pos (decimal s)
    else map_value pos (decimal (c ∷ s))

-- The range of an int64.
abbrev pub in_int64 : ℤ → Bool
in_int64 (pos n) = ltb n (2 ^ 63)
in_int64 (negsuc n) = ltb n (2 ^ 63)

abbrev pub check_int64 : Option ℤ → Option ℤ
check_int64 none = none
check_int64 (some z) = if in_int64 z then some z else none

-- strconv.ParseInt(s, 10, 64), `none` for its error.
unfoldable pub parse_int : Text → Option ℤ
unfolding set_string_10
parse_int s = check_int64 (set_string_10 s)
