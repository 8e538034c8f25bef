-- ===== src/Upstreams/Main/Reads.antt =====
-- What `main` reads of a resolved state is there.
use landscape_openwrt.Base.{◌≡◌, refl, sym, ap, ◌∙◌, subst, false, All, ◌++◌, Text, codes, ◌==◌, ok}
use landscape_openwrt.Base.Dict.{Dict}
use landscape_openwrt.Json.{Json, obj, of_dict, index}
use landscape_openwrt.Json.Shape.{Shape, lacks, HasShape, IsText, IsObject, IsValue, index-HasShape}
use landscape_openwrt.Platform.{Platform}
use landscape_openwrt.Upstreams.Digest.Checksum.{IsChecksum}
use landscape_openwrt.Upstreams.Version.{text_at}
use landscape_openwrt.Upstreams.Inputs.{Arch, amd64_arch, arm64_arch, arches}
use landscape_openwrt.Upstreams.Inputs.Handler.{text_at-of_index}
use landscape_openwrt.Upstreams.State.{arches_key, install_inputs}
use landscape_openwrt.Upstreams.Resolve.Shapes.{arch_shape, arches_shape, state_shape, IsState}
use landscape_openwrt.Upstreams.Main.Outputs.{HasInstall, state-outputs}

-- The URL and the checksum of a download are texts.
abbrev pub IsReadable : Json → Text → Type 0
IsReadable inputs key =
    (url : Text) × (sum : Text) × (text_at (key ++ codes "_url") inputs ≡ ok url)
    × (text_at (key ++ codes "_sha256") inputs ≡ ok sum)

-- What is read for an architecture is there.
abbrev pub IsReady : Json → Arch → Type 0
IsReady state arch =
    (nested : Json) × (inputs : Json) × (install : Dict Json) × (index state arches_key ≡ ok nested)
    × (index nested arch.arch_name ≡ ok inputs)
    × (install_inputs state arch.arch_name ≡ ok install)
    × IsReadable inputs (codes "rootfs")
    × IsReadable inputs (codes "dependency_feed")
    × IsReadable inputs (codes "handler")

-- They are, if the shape has them.
Readable-of_shape :
    (shape : Shape) (d : Dict Json) (key : Text)
    → HasShape shape d
    → lacks shape (key ++ codes "_url") ≡ false
    → lacks shape (key ++ codes "_sha256") ≡ false
    → ((v : Json) → IsValue shape (key ++ codes "_url") v → IsText v)
    → ((v : Json) → IsValue shape (key ++ codes "_sha256") v → IsChecksum v)
    → IsReadable (obj (of_dict d)) key
Readable-of_shape shape d key h has_url has_sum url_kind sum_kind =
    let (u, u_eq, u_ok) = index-HasShape shape (key ++ codes "_url") d has_url h in
    let (s, s_eq, s_ok) = index-HasShape shape (key ++ codes "_sha256") d has_sum h in
    let (url, url_eq) = url_kind u u_ok in
    let (sum, sum_eq, _) = sum_kind s s_ok in
    (
      url,
      sum,
      text_at-of_index (key ++ codes "_url") (obj (of_dict d)) url (u_eq ∙ ap ok url_eq),
      text_at-of_index (key ++ codes "_sha256") (obj (of_dict d)) sum (s_eq ∙ ap ok sum_eq),
    )

inputs-IsReady :
    (py : Platform) (state : Json) (arch : Arch) (nested inputs : Json)
    → index state arches_key ≡ ok nested
    → index nested arch.arch_name ≡ ok inputs
    → IsObject arch_shape inputs
    → HasInstall state arch
    → IsReady state arch
unfolding lacks ◌==◌
inputs-IsReady py state arch nested inputs at at_arch (d, same, h) (install, install_eq, _) =
    let readable = λ (key : Text) (r : IsReadable (obj (of_dict d)) key).
      subst (λ (j : Json). IsReadable j key) (sym same) r in
    (
      nested,
      inputs,
      install,
      at,
      at_arch,
      install_eq,
      readable (codes "rootfs")
          (Readable-of_shape arch_shape d (codes "rootfs") h refl refl (λ v k. k) (λ v k. k)),
      readable (codes "dependency_feed") (
          Readable-of_shape arch_shape d (codes "dependency_feed") h refl refl (λ v k. k)
            (λ v k. k)),
      readable (codes "handler")
          (Readable-of_shape arch_shape d (codes "handler") h refl refl (λ v k. k) (λ v k. k)),
    )

module _ (py : Platform) (state : Json) where
  -- The architectures of a resolved state.
  pub state-IsReady : IsState py state → All (IsReady state) arches
  unfolding lacks ◌==◌
  state-IsReady ((commit, (d, same, h)), sealed) =
      let (nested, found, (n, n_eq, k)) = index-HasShape (state_shape commit) arches_key d refl h in
      let (amd64, amd64_eq, amd64_ok) = index-HasShape arches_shape (codes "amd64") n refl k in
      let (arm64, arm64_eq, arm64_ok) = index-HasShape arches_shape (codes "arm64") n refl k in
      let (amd64_install, (arm64_install, _)) =
        (state-outputs py state ((commit, (d, same, h)), sealed)).1 in
      let at : index state arches_key ≡ ok nested = rw same found in
      (
        inputs-IsReady py state amd64_arch nested amd64 at (rw n_eq amd64_eq) amd64_ok
            amd64_install,
        (
          inputs-IsReady py state arm64_arch nested arm64 at (rw n_eq arm64_eq) arm64_ok
              arm64_install,
          tt,
        ),
      )

  pub shared-IsReadable :
      (commit : Json) (key : Text)
      → lacks (state_shape commit) (key ++ codes "_url") ≡ false
      → lacks (state_shape commit) (key ++ codes "_sha256") ≡ false
      → ((v : Json) → IsValue (state_shape commit) (key ++ codes "_url") v → IsText v)
      → ((v : Json) → IsValue (state_shape commit) (key ++ codes "_sha256") v → IsChecksum v)
      → IsObject (state_shape commit) state
      → IsReadable state key
  shared-IsReadable commit key has_url has_sum url_kind sum_kind (d, same, h) =
      subst (λ (j : Json). IsReadable j key) (sym same)
        (Readable-of_shape (state_shape commit) d key h has_url has_sum url_kind sum_kind)
