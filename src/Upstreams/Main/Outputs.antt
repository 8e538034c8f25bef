-- ===== src/Upstreams/Main/Outputs.antt =====
-- What the outputs and the install inputs of a resolved state are.
use landscape_openwrt.Base.{
  ◌≡◌, refl, sym, ap, ◌∙◌, subst, Bool, true, not, ◌&&◌, arith, All, [], ◌∷◌, ◌++◌, Text, codes,
  ◌==◌, starts_with, ok,
}
use landscape_openwrt.Base.Dict
use landscape_openwrt.Base.Dict.{Dict}
use landscape_openwrt.Json.{Json, obj, of_dict, index, items-of_dict}
use landscape_openwrt.Json.Shape.{
  Shape, lacks, restricted, HasShape, IsText, IsObject, insert-HasShape, restrict-HasShape,
  index-HasShape,
}
use landscape_openwrt.Platform.{Platform}
use landscape_openwrt.Upstreams.Digest.Checksum.{IsChecksum, IsDigest}
use landscape_openwrt.Upstreams.Inputs.{Arch, arches}
use landscape_openwrt.Upstreams.State.{
  arches_key, arch_key, feed_url_key, feed_sha_key, is_install_key, install_inputs, add_arch,
  add_arches, flatten_outputs,
}
use landscape_openwrt.Upstreams.Resolve.Shapes.{
  arch_shape, arches_shape, fields_shape, state_shape, IsState,
}

-- The inputs of an architecture behind other outputs.
abbrev add_shape : Text → Shape → Shape → Shape
add_shape arch [] outputs = outputs
add_shape arch ((key, P) ∷ inputs) outputs =
    add_shape arch inputs (outputs ++ (arch_key key arch, P) ∷ [])

-- None of their keys is among the outputs so far.
unfoldable are_new : Text → Shape → Shape → Bool
unfolding lacks
are_new arch [] outputs = true
are_new arch ((key, P) ∷ inputs) outputs =
    lacks outputs (arch_key key arch)
    && are_new arch inputs (outputs ++ (arch_key key arch, P) ∷ [])

add_arch-HasShape :
    (arch : Text) (inputs outputs : Shape) (d o : Dict Json)
    → are_new arch inputs outputs ≡ true
    → HasShape inputs d
    → HasShape outputs o
    → HasShape (add_shape arch inputs outputs) (add_arch arch d o)
unfolding add_arch are_new
add_arch-HasShape arch [] outputs d o new h k = rw h k
add_arch-HasShape arch ((key, P) ∷ inputs) outputs d o new (v, rest, same, p, h) k = rw same (
    add_arch-HasShape arch inputs (outputs ++ (arch_key key arch, P) ∷ []) rest
      (Dict.insert (arch_key key arch) v o) (ground arith) h
      (insert-HasShape outputs (arch_key key arch) v P o (ground arith) k p))

-- The outputs by their names: the fields of the state, and those of both architectures.
abbrev pub outputs_shape : Json → Shape
outputs_shape commit =
    fields_shape commit
    ++ (codes "inputs_digest", IsDigest)
      ∷ (codes "rootfs_url_amd64", IsText)
      ∷ (codes "rootfs_sha256_amd64", IsChecksum)
      ∷ (codes "dependency_feed_url_amd64", IsText)
      ∷ (codes "dependency_feed_sha256_amd64", IsChecksum)
      ∷ (codes "handler_version_amd64", IsText)
      ∷ (codes "handler_url_amd64", IsText)
      ∷ (codes "handler_sha256_amd64", IsChecksum)
      ∷ (codes "handler_source_url_amd64", IsText)
      ∷ (codes "rootfs_url_arm64", IsText)
      ∷ (codes "rootfs_sha256_arm64", IsChecksum)
      ∷ (codes "dependency_feed_url_arm64", IsText)
      ∷ (codes "dependency_feed_sha256_arm64", IsChecksum)
      ∷ (codes "handler_version_arm64", IsText)
      ∷ (codes "handler_url_arm64", IsText)
      ∷ (codes "handler_sha256_arm64", IsChecksum)
      ∷ (codes "handler_source_url_arm64", IsText)
      ∷ []

abbrev pub install_shape : Shape
install_shape =
    (codes "dependency_key_url", IsText)
    ∷ (codes "dependency_key_sha256", IsChecksum)
    ∷ (codes "passwall_release", IsText)
    ∷ (codes "passwall_version", IsText)
    ∷ (codes "passwall_url", IsText)
    ∷ (codes "passwall_sha256", IsChecksum)
    ∷ (codes "passwall_i18n_url", IsText)
    ∷ (codes "passwall_i18n_sha256", IsChecksum)
    ∷ (codes "dependency_feed_url", IsText)
    ∷ (codes "dependency_feed_sha256", IsChecksum)
    ∷ []

-- The nested dict has the inputs of the two architectures.
pub two_arches :
    (nested : Json)
    → IsObject arches_shape nested
    → (amd64 : Dict Json) × (arm64 : Dict Json) × (nested
        ≡ obj (
            of_dict
              ((codes "amd64", obj (of_dict amd64)) ∷ (codes "arm64", obj (of_dict arm64)) ∷ [])))
      × HasShape arch_shape amd64
      × HasShape arch_shape arm64
two_arches nested
      (n, n_eq, (amd64, n1, n1_eq, (a, a_eq, a_ok), (arm64, n2, n2_eq, (b, b_eq, b_ok), n_end))) =
    (a, b, rw (n_eq, n1_eq, n2_eq, n_end, a_eq, b_eq) refl, a_ok, b_ok)

flatten-HasShape :
    (commit : Json) (d : Dict Json)
    → HasShape (state_shape commit) d
    → (outputs : Dict Json) × (flatten_outputs (obj (of_dict d)) ≡ ok outputs)
      × HasShape (outputs_shape commit) outputs
unfolding flatten_outputs add_arches are_new lacks ◌==◌ restricted
flatten-HasShape commit d h =
    let (nested, at, is_nested) = index-HasShape (state_shape commit) arches_key d refl h in
    let (a, b, both, a_ok, b_ok) = two_arches nested is_nested in
    let plain = restrict-HasShape (λ key. not (key == arches_key)) (state_shape commit) d h in
    (
      _,
      rw (items-of_dict d, at, both) (rw (items-of_dict, items-of_dict a, items-of_dict b) refl),
      add_arch-HasShape (codes "arm64") arch_shape
          (add_shape (codes "amd64") arch_shape
            (fields_shape commit ++ (codes "inputs_digest", IsDigest) ∷ []))
          b _ refl b_ok
          (add_arch-HasShape (codes "amd64") arch_shape
            (fields_shape commit ++ (codes "inputs_digest", IsDigest) ∷ []) a _ refl a_ok plain),
    )

install-HasShape :
    (commit : Json) (d : Dict Json) (arch : Text) (nested inputs : Json)
    → HasShape (state_shape commit) d
    → index (obj (of_dict d)) arches_key ≡ ok nested
    → index nested arch ≡ ok inputs
    → IsObject arch_shape inputs
    → (install : Dict Json) × (install_inputs (obj (of_dict d)) arch ≡ ok install)
      × HasShape install_shape install
unfolding install_inputs lacks ◌==◌ restricted starts_with
install-HasShape commit d arch nested inputs h at at_arch (e, e_eq, k) =
    let (url, url_eq, url_ok) = index-HasShape arch_shape feed_url_key e refl k in
    let (sum, sum_eq, sum_ok) = index-HasShape arch_shape feed_sha_key e refl k in
    let plain = restrict-HasShape is_install_key (state_shape commit) d h in
    let with_url =
      insert-HasShape (restricted is_install_key (state_shape commit)) feed_url_key url IsText _
        refl plain url_ok in
    (
      _,
      rw (items-of_dict d, at, at_arch, e_eq, url_eq, sum_eq) refl,
      insert-HasShape
          (restricted is_install_key (state_shape commit) ++ (feed_url_key, IsText) ∷ [])
          feed_sha_key sum IsChecksum _ refl with_url sum_ok,
    )

abbrev pub HasInstall : Json → Arch → Type 0
HasInstall state arch =
    (install : Dict Json) × (install_inputs state arch.arch_name ≡ ok install)
    × HasShape install_shape install

-- The outputs of a state, with the commit that the state names.
abbrev pub HasOutputs : Json → Type 0
HasOutputs state =
    (commit : Json) × (outputs : Dict Json) × (index state (codes "immortalwrt_commit") ≡ ok commit)
    × (flatten_outputs state ≡ ok outputs)
    × HasShape (outputs_shape commit) outputs

-- Of a resolved state, the outputs are the fields of `outputs_shape`, and the install inputs of both
-- architectures are those of `install_shape`.
pub state-outputs :
    (py : Platform) (state : Json)
    → IsState py state
    → HasOutputs state × All (HasInstall state) arches
unfolding lacks ◌==◌
state-outputs py state ((commit, (d, same, h)), sealed) =
    let (value, at_commit, commit_eq) =
      index-HasShape (state_shape commit) (codes "immortalwrt_commit") d refl h in
    let (outputs, flat, outputs_ok) = flatten-HasShape commit d h in
    let (nested, at, (n, n_eq, k)) = index-HasShape (state_shape commit) arches_key d refl h in
    let (amd64, amd64_eq, amd64_ok) = index-HasShape arches_shape (codes "amd64") n refl k in
    let (arm64, arm64_eq, arm64_ok) = index-HasShape arches_shape (codes "arm64") n refl k in
    subst (λ (s : Json). HasOutputs s × All (HasInstall s) arches) (sym same)
      (
        (commit, outputs, at_commit ∙ ap ok commit_eq, flat, outputs_ok),
        (
          install-HasShape commit d (codes "amd64") nested amd64 h at (rw n_eq amd64_eq) amd64_ok,
          (
            install-HasShape commit d (codes "arm64") nested arm64 h at (rw n_eq arm64_eq) arm64_ok,
            tt,
          ),
        ),
      )
