-- ===== src/Upstreams/Resolve/Shapes.antt =====
-- The shape of the resolved state.
use landscape_openwrt.Base.{◌≡◌, List, [], ◌∷◌, ◌++◌, Text, codes, ok}
use landscape_openwrt.Base.Dict.{Dict}
use landscape_openwrt.Json.{Json, Fields, of_dict}
use landscape_openwrt.Json.Shape.{Shape, HasShape, IsText, IsObject}
use landscape_openwrt.Platform.{Platform}
use landscape_openwrt.Upstreams.Digest.Checksum.{IsChecksum, IsDigest}
use landscape_openwrt.Upstreams.Version.{text_at}
use landscape_openwrt.Upstreams.Inputs.{Arch}
use landscape_openwrt.Upstreams.Inputs.Shape.{inputs_shape}
use landscape_openwrt.Upstreams.State.{inputs_digest, digest_key}

abbrev pub arch_shape : Shape
arch_shape = inputs_shape ++ (codes "handler_source_url", IsText) ∷ []

abbrev pub arches_shape : Shape
arches_shape = (codes "amd64", IsObject arch_shape) ∷ (codes "arm64", IsObject arch_shape) ∷ []

-- The nested dict that the loop over these architectures gives.
abbrev pub arches_of : List Arch → Shape
arches_of [] = []
arches_of (arch ∷ more) = (arch.arch_name, IsObject arch_shape) ∷ arches_of more

abbrev pub AreFields : Shape → Fields → Type 0
AreFields shape fields = (d : Dict Json) × (fields ≡ of_dict d) × HasShape shape d

-- The fields up to `resolved_at`. The commit is whatever the API names.
abbrev pub fields_shape : Json → Shape
fields_shape commit =
    (codes "immortalwrt_version", IsText)
    ∷ (codes "immortalwrt_commit", λ value. value ≡ commit)
    ∷ (codes "dependency_key_url", IsText)
    ∷ (codes "dependency_key_sha256", IsChecksum)
    ∷ (codes "passwall_release", IsText)
    ∷ (codes "passwall_version", IsText)
    ∷ (codes "passwall_url", IsText)
    ∷ (codes "passwall_sha256", IsChecksum)
    ∷ (codes "passwall_i18n_url", IsText)
    ∷ (codes "passwall_i18n_sha256", IsChecksum)
    ∷ (codes "handler_version", IsText)
    ∷ (codes "source_revision", IsText)
    ∷ (codes "resolved_at", IsText)
    ∷ []

abbrev pub state_shape : Json → Shape
state_shape commit =
    fields_shape commit
    ++ (codes "arches", IsObject arches_shape) ∷ (codes "inputs_digest", IsDigest) ∷ []

-- The state has these fields, and its `inputs_digest` is its own.
abbrev pub IsState : Platform → Json → Type 0
IsState py state =
    ((commit : Json) × IsObject (state_shape commit) state)
    × ((digest : Text) × (text_at digest_key state ≡ ok digest)
        × (inputs_digest py state ≡ ok digest))
