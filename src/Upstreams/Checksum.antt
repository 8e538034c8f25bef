-- ===== src/Upstreams/Checksum.antt =====
-- `rootfs_checksum` of scripts/upstreams.py: the line of a `sha256sums` file for one file name.
pub mod Laws
use landscape_openwrt.Base.{
  Option, none, some, List, [], ◌∷◌, if◌then◌else◌, eqb, Text, ◌==◌, lstrip, splitlines,
  split_words, Result, ok, raise, value_error, not_one_rootfs_checksum,
}
use landscape_openwrt.Regex.{fullmatch}
use landscape_openwrt.Upstreams.Digest.{hex_pattern}

-- `parts[0]` of a line of two parts, the second of which is the file name behind any asterisks.
unfoldable pub checksum_of : Text → List Text → Option Text
checksum_of filename (sum ∷ name ∷ []) =
    if lstrip (eqb b'*') name == filename then some sum else none
checksum_of filename _ = none

-- `matches.append(parts[0])` for a line that counts; the loop goes through the lines in order.
abbrev pub onto_matches : Option Text → List Text → List Text
onto_matches (some sum) matches = sum ∷ matches
onto_matches none matches = matches

unfoldable pub matches_in : Text → List Text → List Text
matches_in filename [] = []
matches_in filename (line ∷ lines) =
    onto_matches (checksum_of filename (split_words line)) (matches_in filename lines)

unfoldable pub only_checksum : List Text → Result Text
only_checksum (sum ∷ []) =
    if fullmatch hex_pattern sum then ok sum else raise (value_error not_one_rootfs_checksum)
only_checksum _ = raise (value_error not_one_rootfs_checksum)

unfoldable pub rootfs_checksum : Text → Text → Result Text
rootfs_checksum checksums filename = only_checksum (matches_in filename (splitlines checksums))
