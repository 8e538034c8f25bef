-- ===== src/Upstreams/Digest.antt =====
-- `digest_of` and `verify_digest` of scripts/upstreams.py.
pub mod Laws
pub mod Checksum
use landscape_openwrt.Base.{
  ◌++◌, ◌&&◌, if◌then◌else◌, Text, Bytes, codes, ◌==◌, Result, digest_mismatch, require, ◌>>=◌, [],
}
use landscape_openwrt.Regex.{Regex, one_of, both, fullmatch, literal, times}
use landscape_openwrt.Json.{Json, str, truthy, as_text}
use landscape_openwrt.Platform.{Platform, is_hex}

-- `[a-f0-9]{64}` and `sha256:[a-f0-9]{64}`
abbrev pub hex_pattern : Regex
hex_pattern = times 64 (one_of is_hex)

abbrev pub sha256_pattern : Regex
sha256_pattern = both (literal (codes "sha256:")) hex_pattern

-- `value or ""`
unfoldable pub or_empty : Json → Json
unfolding truthy
or_empty j = if truthy j then j else str []

module _ (py : Platform) where
  unfoldable pub digest_of : Bytes → Text
  digest_of b = codes "sha256:" ++ py.hexdigest b

  -- What does not match the pattern is refused before the digests are compared, so `expected or ""`
  -- can stand for `expected` in the comparison.
  unfoldable pub verify_digest : Bytes → Json → Result (Unit {0})
  unfolding or_empty as_text
  verify_digest b expected = do
    wanted ← as_text (or_empty expected)
    require (fullmatch sha256_pattern wanted && digest_of b == wanted) digest_mismatch
