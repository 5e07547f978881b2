-- ===== src/Time.antt =====
-- Go's package time, as the API uses it: a time.Time is the nanoseconds since the Unix epoch, and a
-- time.Duration is an int64 of nanoseconds.
use railway.Base.{◌-◌, ◌^◌, ◌≡◌, ◌↔◌, Bool, true, false, ◌||◌, arith, if◌then◌else◌}
use railway.Base.Int.{ℤ, pos, negsuc, ◌-ℤ◌, ◌*ℤ◌, ◌≤ℤ◌, ltb_ℤ}

abbrev pub second : ℤ
second = pos 1000000000

abbrev pub millisecond : ℤ
millisecond = pos 1000000

-- time.Unix(ts, 0)
unfoldable pub unix : ℤ → ℤ
unix ts = ts *ℤ second

-- t.After(u)
abbrev pub after : ℤ → ℤ → Bool
after t u = ltb_ℤ u t

-- t.Sub(u), held to the range of a Duration.
unfoldable pub sub : ℤ → ℤ → ℤ
sub t u =
    let d = t -ℤ u in
    if ltb_ℤ (pos (2 ^ 63 - 1)) d
    then pos (2 ^ 63 - 1)
    else if ltb_ℤ d (negsuc (2 ^ 63 - 1))
    then negsuc (2 ^ 63 - 1)
    else d

-- t and u are at most `skew` apart.
abbrev pub IsWithin : ℤ → ℤ → ℤ → Type 0
IsWithin skew t u = (t -ℤ u ≤ℤ skew) × (u -ℤ t ≤ℤ skew)

-- The held difference of two times tells whether they are within a skew that is not the greatest
-- Duration, whatever the sign of the skew.
pub sub-IsWithin :
    (skew t u : ℤ)
    → ltb_ℤ skew (pos (2 ^ 63 - 1)) ≡ true
    → ((ltb_ℤ skew (sub t u) || ltb_ℤ skew (sub u t)) ≡ false) ↔ IsWithin skew t u
unfolding sub ◌-ℤ◌
sub-IsWithin skew t u h = ground arith
