-- ===== src/Text/Utf8.antt =====
-- utf8.Valid of Go's unicode/utf8.
use railway.Base.{ℕ, zero, suc, Bool, true, false, ◌&&◌, [], ◌∷◌, if◌then◌else◌, leb, ◌≡◌, refl}
use railway.Text.Defs.{Text}

-- How many bytes a first byte asks for, and the range of the next one.
record Expected : Type 0 where
  known : Bool
  more : ℕ
  low : ℕ
  high : ℕ

abbrev any_next : ℕ → Expected
any_next n = record { known = true; more = n; low = 128; high = 191 }

unfoldable expected : ℕ → Expected
expected c =
    if leb c 127
    then any_next 0
    else if leb c 193
    then record { known = false; more = 0; low = 0; high = 0 }
    else if leb c 223
    then any_next 1
    else if leb c 224
    then record { known = true; more = 2; low = 160; high = 191 }
    else if leb c 236
    then any_next 2
    else if leb c 237
    then record { known = true; more = 2; low = 128; high = 159 }
    else if leb c 239
    then any_next 2
    else if leb c 240
    then record { known = true; more = 3; low = 144; high = 191 }
    else if leb c 243
    then any_next 3
    else if leb c 244
    then record { known = true; more = 3; low = 128; high = 143 }
    else record { known = false; more = 0; low = 0; high = 0 }

-- The rest of a text, of which so many bytes still belong to a rune.
unfoldable continues : ℕ → ℕ → ℕ → Text → Bool
unfolding expected
continues zero low high [] = true
continues (suc n) low high [] = false
continues zero low high (c ∷ s) = let e = expected c in e.known && continues e.more e.low e.high s
continues (suc n) low high (c ∷ s) = leb low c && leb c high && continues n 128 191 s

unfoldable pub is_utf8 : Text → Bool
unfolding continues
is_utf8 s = continues zero 0 0 s

ascii : is_utf8 (b'k' ∷ b'9' ∷ []) ≡ true
unfolding is_utf8
ascii = refl

two_bytes : is_utf8 (195 ∷ 169 ∷ []) ≡ true
unfolding is_utf8
two_bytes = refl

cut_off : is_utf8 (195 ∷ []) ≡ false
unfolding is_utf8
cut_off = refl

surrogate : is_utf8 (237 ∷ 160 ∷ 128 ∷ []) ≡ false
unfolding is_utf8
surrogate = refl
