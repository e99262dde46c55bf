-- ===== src/PkgArchive/Identity.antt =====
-- What names an artifact: its format, and the digest of its bytes. `sha256` is the hash function of
-- the standard library, a function from bytes to bytes.
use indexjack.Prelude.{ℕ, ◌+◌, ◌-◌, ◌/◌, ◌%◌, ltb, if◌then◌else◌, [], ◌∷◌, ◌++◌, Text, Bytes, codes}

abbrev pub manifest_format : Text
manifest_format = codes "indexjack-package/1"

hex_digit : ℕ → ℕ
hex_digit n = if ltb n 10 then b'0' + n else b'a' + (n - 10)

-- `hex.EncodeToString`
unfoldable pub hex : Bytes → Text
unfolding hex_digit
hex [] = []
hex (b ∷ bs) = hex_digit (b / 16) ∷ hex_digit (b % 16) ∷ hex bs

unfoldable pub digest : (Bytes → Bytes) → Bytes → Text
unfolding hex
digest sha256 raw = codes "sha256:" ++ hex (sha256 raw)
