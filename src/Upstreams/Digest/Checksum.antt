-- ===== src/Upstreams/Digest/Checksum.antt =====
-- What a checksum is: 64 hexadecimal digits, alone or behind the name of the algorithm.
use landscape_openwrt.Base.{
  ◌≡◌, refl, ◌∙◌, ap, true, Option, none, some, [], ◌∷◌, ◌++◌, eqb_refl, Text, Bytes, codes,
  after_prefix, remove_prefix,
}
use landscape_openwrt.Regex.{fullmatch}
use landscape_openwrt.Regex.Laws.{fullmatch_iff}
use landscape_openwrt.Regex.Shapes.{Lang-times, literal-eq}
use landscape_openwrt.Json.{Json, str}
use landscape_openwrt.Platform.{Platform, IsLawful, is_hex}
use landscape_openwrt.Upstreams.Digest.{hex_pattern, sha256_pattern}

abbrev pub IsChecksum : Json → Type 0
IsChecksum value = (sum : Text) × (value ≡ str sum) × (fullmatch hex_pattern sum ≡ true)

abbrev pub IsDigest : Json → Type 0
IsDigest value = (sum : Text) × (value ≡ str sum) × (fullmatch sha256_pattern sum ≡ true)

after_prefix-append : (p s : Text) → after_prefix p (p ++ s) ≡ some s
unfolding after_prefix
after_prefix-append [] s = refl
after_prefix-append (c ∷ p) s = rw (eqb_refl c, after_prefix-append p s)

remove_prefix-append : (p s : Text) → remove_prefix p (p ++ s) ≡ s
unfolding remove_prefix
remove_prefix-append p s =
    ap (λ (o : Option Text). elim o [ some r ↦ r | none ↦ p ++ s ]) (after_prefix-append p s)

-- A digest without the name of the algorithm is a checksum.
pub remove_prefix-IsChecksum :
    (sum : Text)
    → fullmatch sha256_pattern sum ≡ true
    → IsChecksum (str (remove_prefix (codes "sha256:") sum))
remove_prefix-IsChecksum sum h =
    let (label, rest, e, l, r) = (fullmatch_iff sha256_pattern sum).0 h in
    let same : sum ≡ codes "sha256:" ++ rest =
      e ∙ ap (λ (s : Text). s ++ rest) (literal-eq (codes "sha256:") label l) in
    (
      rest,
      rw same (ap str (remove_prefix-append (codes "sha256:") rest)),
      (fullmatch_iff hex_pattern rest).1 r,
    )

-- `hashlib.sha256(content).hexdigest()`
pub hexdigest-IsChecksum :
    (py : Platform) → IsLawful py → (content : Bytes) → IsChecksum (str (py.hexdigest content))
hexdigest-IsChecksum py law content = (
  py.hexdigest content,
  refl,
  (fullmatch_iff hex_pattern (py.hexdigest content)).1 (
      Lang-times is_hex 64 (py.hexdigest content) (law.digest_length content)
        (law.digest_hex content)),
)
