-- ===== src/Text/Parsing.antt =====
-- What a parsed number says of its text.
use railway.Base.{◌≡◌, ◌≢◌, [], ◌∷◌, some}
use railway.Base.Int.{ℤ}
use railway.Text.Defs.{Text, parse_int}

pub parse_int-ne-nil : (s : Text) {z : ℤ} → parse_int s ≡ some z → s ≢ []
unfolding parse_int
parse_int-ne-nil [] e = cc
parse_int-ne-nil (c ∷ s) e = cc
