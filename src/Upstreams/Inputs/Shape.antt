-- ===== src/Upstreams/Inputs/Shape.antt =====
-- What the inputs of an architecture are.
use landscape_openwrt.Base.{
  ◌&◌, ◌==◌, ok-inj, ◌≡◌, refl, sym, ap, ◌∙◌, true, false, List, [], ◌∷◌, Text, codes, ok, raise,
  value_error, not_one_rootfs_checksum, if◌then◌else◌, Bool-cases, inl, inr,
}
use landscape_openwrt.Regex.{fullmatch}
use landscape_openwrt.Json.{Json, str}
use landscape_openwrt.Json.Shape.{Shape, same_keys, same_keys-HasShape, HasShape, IsText}
use landscape_openwrt.Platform.{Platform, IsLawful}
use landscape_openwrt.Action.Laws.{Ensures, Ensures-bind, Ensures-lift, Ensures-pure}
use landscape_openwrt.Upstreams.Http.{request}
use landscape_openwrt.Upstreams.Digest.{hex_pattern}
use landscape_openwrt.Upstreams.Digest.Checksum.{
  IsChecksum, remove_prefix-IsChecksum, hexdigest-IsChecksum,
}
use landscape_openwrt.Upstreams.Version.{text_at}
use landscape_openwrt.Upstreams.Release.{tag_field}
use landscape_openwrt.Upstreams.Checksum.{only_checksum, rootfs_checksum}
use landscape_openwrt.Upstreams.Inputs.{
  Arch, rootfs_name, feed_url, decode_text, select_handler, resolve_arch_inputs,
}
use landscape_openwrt.Upstreams.Inputs.Handler.{select_handler-IsHandler}

abbrev pub inputs_shape : Shape
inputs_shape =
    (codes "rootfs_url", IsText)
    ∷ (codes "rootfs_sha256", IsChecksum)
    ∷ (codes "dependency_feed_url", IsText)
    ∷ (codes "dependency_feed_sha256", IsChecksum)
    ∷ (codes "handler_version", IsText)
    ∷ (codes "handler_url", IsText)
    ∷ (codes "handler_sha256", IsChecksum)
    ∷ []

only_checksum-IsChecksum :
    (sums : List Text) (sum : Text) → only_checksum sums ≡ ok sum → IsChecksum (str sum)
unfolding only_checksum
only_checksum-IsChecksum [] sum h = cc
only_checksum-IsChecksum (a ∷ b ∷ sums) sum h = cc
only_checksum-IsChecksum (a ∷ []) sum h = elim (Bool-cases (fullmatch hex_pattern a)) [
  | inl e ↦
      let e' : (if true then ok a else raise (value_error not_one_rootfs_checksum)) ≡ ok sum =
        rw e at h in
      (sum, refl, ap (fullmatch hex_pattern) (sym (ok-inj a sum e')) ∙ e)
  | inr e ↦
      let e' : (if false then ok a else raise (value_error not_one_rootfs_checksum)) ≡ ok sum =
        rw e at h in
      cc
]

rootfs_checksum-IsChecksum :
    (checksums filename sum : Text)
    → rootfs_checksum checksums filename ≡ ok sum
    → IsChecksum (str sum)
unfolding rootfs_checksum
rootfs_checksum-IsChecksum checksums filename sum h = only_checksum-IsChecksum _ sum h

module _ (py : Platform) (law : IsLawful py) where
  pub resolve_arch_inputs-HasShape :
      (version : Text) (release : Json) (arch : Arch)
      → Ensures (HasShape inputs_shape) (resolve_arch_inputs py version release arch)
  unfolding resolve_arch_inputs same_keys ◌==◌
  resolve_arch_inputs-HasShape version release arch =
      Ensures-bind (HasShape inputs_shape) (request py _ []) _ λ sums _ _ _.
        Ensures-lift (HasShape inputs_shape) (decode_text py sums.0) _ λ checksums _.
          Ensures-lift (HasShape inputs_shape)
            (rootfs_checksum checksums (rootfs_name version arch)) _
            λ sum is_sum.
              Ensures-bind (HasShape inputs_shape) (request py (feed_url version arch) []) _
                λ feed _ _ _.
                  Ensures-lift (HasShape inputs_shape) (select_handler release arch) _
                    λ handler selected.
                      Ensures-lift (HasShape inputs_shape) (text_at tag_field release) _ λ tag _.
                        Ensures-pure (HasShape inputs_shape) _ (
                          same_keys-HasShape inputs_shape _ refl (
                            (_, refl)
                            & rootfs_checksum-IsChecksum checksums _ sum is_sum
                            & (_, refl)
                            & hexdigest-IsChecksum py law feed.0
                            & (_, refl)
                            & (_, refl)
                            & remove_prefix-IsChecksum handler.1
                                (select_handler-IsHandler release arch handler.0 handler.1
                                  selected).is_sha256
                            & tt))
