-- ===== src/Upstreams/Inputs.antt =====
-- `ARCHES` and `resolve_arch_inputs` of scripts/upstreams.py.
pub mod Handler
pub mod Shape
use landscape_openwrt.Base.{
  Bool, List, [], ◌∷◌, ◌++◌, none, some, eqb, Text, Bytes, codes, split_on, join, remove_prefix,
  Result, ok, raise, value_error, invalid_encoding, not_one_handler, asset_digest_required,
  unexpected_asset_url, require, keep,
}
use landscape_openwrt.Base.{◌>>=◌ as bind, ◌>>◌ as then_do}
use landscape_openwrt.Base.Dict.{Dict}
use landscape_openwrt.Regex.{fullmatch}
use landscape_openwrt.Json.{Json, str, index, elements, as_text}
use landscape_openwrt.Platform.{Platform}
use landscape_openwrt.Io.{Io, pure, lift, ◌>>=◌}
use landscape_openwrt.Upstreams.Http.{request}
use landscape_openwrt.Upstreams.Digest.{sha256_pattern}
use landscape_openwrt.Upstreams.Version.{text_at, name_field}
use landscape_openwrt.Upstreams.Release.{get_or, tag_field, download_url}
use landscape_openwrt.Upstreams.Registry.{is_text}
use landscape_openwrt.Upstreams.Checksum.{rootfs_checksum}

-- An entry of `ARCHES`. `rootfs_prefix` is the format string, as a function of the version.
pub record Arch : Type 0 where
  pub arch_name : Text
  pub docker_platform : Text
  pub immortalwrt_target : Text
  pub rootfs_prefix : Text → Text
  pub package_arch : Text
  pub handler_suffix : Text

abbrev pub amd64_arch : Arch
amd64_arch = record {
  arch_name = codes "amd64";
  docker_platform = codes "linux/amd64";
  immortalwrt_target = codes "x86/64";
  rootfs_prefix = λ version. codes "immortalwrt-" ++ (version ++ codes "-x86-64");
  package_arch = codes "x86_64";
  handler_suffix = codes "x86_64";
}

abbrev pub arm64_arch : Arch
arm64_arch = record {
  arch_name = codes "arm64";
  docker_platform = codes "linux/arm64";
  immortalwrt_target = codes "armsr/armv8";
  rootfs_prefix = λ version. codes "immortalwrt-" ++ (version ++ codes "-armsr-armv8");
  package_arch = codes "aarch64_generic";
  handler_suffix = codes "aarch64";
}

abbrev pub arches : List Arch
arches = amd64_arch ∷ arm64_arch ∷ []

abbrev pub landscape_repo : Text
landscape_repo = codes "ThisSeanZhang/landscape"

abbrev pub first_two : List Text → List Text
first_two (a ∷ b ∷ rest) = a ∷ b ∷ []
first_two pieces = pieces

-- `".".join(version.split(".")[:2])`
unfoldable pub short_version : Text → Text
unfolding split_on join
short_version version = join (codes ".") (first_two (split_on (eqb b'.') version))

abbrev pub release_url : Text → Arch → Text
release_url version arch =
    codes "https://downloads.immortalwrt.org/releases/"
    ++ (version ++ (codes "/targets/" ++ (arch.immortalwrt_target ++ codes "/")))

abbrev pub rootfs_name : Text → Arch → Text
rootfs_name version arch = arch.rootfs_prefix version ++ codes "-rootfs.tar.gz"

unfoldable pub feed_url : Text → Arch → Text
unfolding short_version
feed_url version arch =
    codes "https://master.dl.sourceforge.net/project/openwrt-passwall-build/releases/packages-"
    ++ (short_version version
        ++ (codes "/" ++ (arch.package_arch ++ codes "/passwall_packages/packages.adb")))

abbrev pub handler_name : Arch → Text
handler_name arch = codes "redirect_pkg_handler-" ++ (arch.handler_suffix ++ codes "-static")

-- `asset["name"] == name`
unfoldable pub is_named : Text → Json → Result Bool
unfolding is_text
is_named name asset = bind (index asset name_field) λ found. ok (is_text (some found) name)

-- The download URL and the checksum of the handler: its only asset must have a digest, and the URL
-- of the release.
unfoldable pub handler_of : Json → Arch → List Json → Result (Text × Text)
unfolding is_text
handler_of release arch (asset ∷ []) = bind (get_or asset (codes "digest") (str [])) λ digest.
    bind (as_text digest) λ checksum.
      then_do (require (fullmatch sha256_pattern checksum) asset_digest_required) (
        bind (index asset (codes "browser_download_url")) λ url.
          bind (text_at tag_field release) λ tag.
            then_do
              (require (is_text (some url) (download_url landscape_repo tag (handler_name arch)))
                unexpected_asset_url)
              (ok (download_url landscape_repo tag (handler_name arch), checksum)))
handler_of release arch _ = raise (value_error not_one_handler)

unfoldable pub select_handler : Json → Arch → Result (Text × Text)
select_handler release arch = bind (index release (codes "assets")) λ listed.
    bind (elements listed)
      λ items. bind (keep (is_named (handler_name arch)) items) (handler_of release arch)

module _ (py : Platform) where
  -- `data.decode()`
  abbrev pub decode_text : Bytes → Result Text
  decode_text b = elim (py.decode b) [ some s ↦ ok s | none ↦ raise (value_error invalid_encoding) ]

  unfoldable pub resolve_arch_inputs : Text → Json → Arch → Io (Dict Json)
  resolve_arch_inputs version release arch = do
    (sums, _) ← request py (release_url version arch ++ codes "sha256sums") []
    checksums ← lift (decode_text sums)
    rootfs_sha ← lift (rootfs_checksum checksums (rootfs_name version arch))
    (feed_data, _) ← request py (feed_url version arch) []
    (url, checksum) ← lift (select_handler release arch)
    tag ← lift (text_at tag_field release)
    pure (
        (codes "rootfs_url", str (release_url version arch ++ rootfs_name version arch))
        ∷ (codes "rootfs_sha256", str rootfs_sha)
        ∷ (codes "dependency_feed_url", str (feed_url version arch))
        ∷ (codes "dependency_feed_sha256", str (py.hexdigest feed_data))
        ∷ (codes "handler_version", str tag)
        ∷ (codes "handler_url", str url)
        ∷ (codes "handler_sha256", str (remove_prefix (codes "sha256:") checksum))
        ∷ [])
