-- ===== src/Escrow/Eth/Bytes.antt =====
-- The byte strings of api/internal/escrow/eth_client.go: toBytes32, and big.Int's Bytes.
pub mod Laws
use railway.Base.{
  ℕ, zero, suc, ◌+◌, ◌-◌, ◌/◌, ◌%◌, ◌==◌, [], ◌∷◌, ◌++◌, length, take, replicate, if◌then◌else◌,
}
use railway.Base.Int.{ℤ, pos, negsuc}
use railway.Text.{Text}

-- The first 32 bytes, followed by zeros.
unfoldable pub to_bytes32 : Text → Text
to_bytes32 value = take 32 value ++ replicate (32 - length value) 0

-- |z|
abbrev pub magnitude : ℤ → ℕ
magnitude (pos n) = n
magnitude (negsuc n) = suc n

-- The bytes of n, the most significant first, before `acc`, with fuel for their number.
unfoldable pub bytes_from : ℕ → ℕ → Text → Text
bytes_from zero n acc = acc
bytes_from (suc fuel) n acc =
    let more = bytes_from fuel (n / 256) ((n % 256) ∷ acc) in if n == 0 then acc else more

-- z.Bytes() at the absolute value: n + 1 rounds are enough, since n / 256 < n.
unfoldable pub natural_bytes : ℕ → Text
unfolding bytes_from
natural_bytes n = bytes_from (suc n) n []
