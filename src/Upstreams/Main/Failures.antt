-- ===== src/Upstreams/Main/Failures.antt =====
-- What the downloads of `main` can raise.
use landscape_openwrt.Base.{
  ℕ, some, other_error, ◌≡◌, refl, subst, Bool, true, false, All, List, [], ◌∷◌, ◌++◌,
  if◌then◌else◌, Text, Bytes, Headers, codes, ◌==◌, starts_with, Error, ok, raise, value_error,
  digest_mismatch, not_elf, require, Reason,
}
use landscape_openwrt.Json.{Json, str, index}
use landscape_openwrt.Json.Shape.{lacks}
use landscape_openwrt.Platform.{Platform, IsLawful}
use landscape_openwrt.Action.{lift}
use landscape_openwrt.Action.Laws.{Raises, Raises-pure, Raises-bind, Raises-then, Raises-ok}
use landscape_openwrt.Io.{World, Event, emit, touch, make_dir, write_bytes}
use landscape_openwrt.Io.Disk.{touch-Raises}
use landscape_openwrt.Upstreams.Http.{request}
use landscape_openwrt.Upstreams.Digest.{digest_of, verify_digest}
use landscape_openwrt.Upstreams.Digest.Laws.{verify_digest-str}
use landscape_openwrt.Upstreams.Version.{text_at}
use landscape_openwrt.Upstreams.Inputs.{Arch}
use landscape_openwrt.Upstreams.State.{arches_key, install_inputs}
use landscape_openwrt.Upstreams.Resolve.{resolve}
use landscape_openwrt.Upstreams.Resolve.Shapes.{IsState}
use landscape_openwrt.Upstreams.Main.{
  Args, decide_build, elf_magic, download, download_handler, download_arch, download_arches,
  download_shared,
}
use landscape_openwrt.Upstreams.Main.Reads.{IsReadable, IsReady, shared-IsReadable}

-- `CanFail py args e`: the ways to the exception `e`.
pub data CanFail (py : Platform) (args : Args) : Error → Type 0 where
  of_resolve : (e : Error) (w v : World) → resolve py w ≡ (raise e, v) → CanFail py args e
  of_decision :
      (state : Json) (e : Error) (w v : World)
      → decide_build py args state w ≡ (raise e, v)
      → CanFail py args e
  of_request :
      (url : Text) (headers : Headers) (e : Error) (w v : World)
      → request py url headers w ≡ (raise e, v)
      → CanFail py args e
  of_disk :
      (n : ℕ) (path name : Text)
      → py.refused n path ≡ some name
      → CanFail py args (other_error name)
  of_digest : CanFail py args (value_error digest_mismatch)
  of_content : CanFail py args (value_error not_elf)

module _ (py : Platform) (law : IsLawful py) (args : Args) where
  pub emit-Raises : (event : Event) → Raises (CanFail py args) (emit event)
  emit-Raises event e w v h = cc

  pub disk-Raises :
      (path : Text) (event : Event) (left : List Event)
      → Raises (CanFail py args) (touch py path event left)
  disk-Raises path event left =
      touch-Raises py path event left (CanFail py args) (λ n name e. of_disk n path name e)

  request-Raises :
      (url : Text) (headers : Headers) → Raises (CanFail py args) (request py url headers)
  request-Raises url headers e w v h = of_request url headers e w v h

  require-Raises :
      (test : Bool) (reason : Reason)
      → CanFail py args (value_error reason)
      → Raises {S = World} (CanFail py args) (lift (require test reason))
  require-Raises true reason p e w v h = cc
  require-Raises false reason p e w v h =
      let same : value_error reason ≡ e = cc in subst (CanFail py args) same p

  checked-Raises :
      (test : Bool)
      → Raises {S = World}
          (CanFail py args)
          (lift (if test then ok tt else raise (value_error digest_mismatch)))
  checked-Raises true e w v h = cc
  checked-Raises false e w v h =
      let same : value_error digest_mismatch ≡ e = cc in subst (CanFail py args) same of_digest

  verify_digest-Raises :
      (content : Bytes) (sum : Text)
      → Raises {S = World} (CanFail py args) (lift (verify_digest py content (str sum)))
  verify_digest-Raises content sum =
      rw (verify_digest-str py law content sum) (checked-Raises (digest_of py content == sum))

  download-Raises :
      (inputs : Json) (key path : Text)
      → IsReadable inputs key
      → Raises (CanFail py args) (download py inputs key path)
  unfolding download
  download-Raises inputs key path (url, sum, url_eq, sum_eq) =
      Raises-ok (CanFail py args) (text_at (key ++ codes "_url") inputs) _ url_eq (
        Raises-bind (CanFail py args) (request py url []) _ (request-Raises url []) λ got _ _ _.
          Raises-ok (CanFail py args) (text_at (key ++ codes "_sha256") inputs) _ sum_eq (
            Raises-then (CanFail py args)
              (lift (verify_digest py got.0 (str (codes "sha256:" ++ sum)))) _
              (verify_digest-Raises got.0 (codes "sha256:" ++ sum))
              (Raises-then (CanFail py args) (write_bytes py path got.0) _ (disk-Raises path _ _)
                (Raises-pure (CanFail py args) got.0))))

  download_handler-Raises :
      (inputs : Json) (dir : Text)
      → IsReadable inputs (codes "handler")
      → Raises (CanFail py args) (download_handler py inputs dir)
  unfolding download_handler
  download_handler-Raises inputs dir (url, sum, url_eq, sum_eq) =
      Raises-ok (CanFail py args) (text_at (codes "handler_url") inputs) _ url_eq (
        Raises-bind (CanFail py args) (request py url []) _ (request-Raises url []) λ got _ _ _.
          Raises-ok (CanFail py args) (text_at (codes "handler_sha256") inputs) _ sum_eq (
            Raises-then (CanFail py args)
              (lift (verify_digest py got.0 (str (codes "sha256:" ++ sum)))) _
              (verify_digest-Raises got.0 (codes "sha256:" ++ sum))
              (Raises-then (CanFail py args) (lift (require (starts_with got.0 elf_magic) not_elf))
                _ (require-Raises (starts_with got.0 elf_magic) not_elf of_content)
                (Raises-then (CanFail py args) (write_bytes py _ got.0) _ (disk-Raises _ _ _)
                  (disk-Raises _ _ _)))))

  download_arch-Raises :
      (state : Json) (arch : Arch)
      → IsReady state arch
      → Raises (CanFail py args) (download_arch py state arch)
  unfolding download_arch
  download_arch-Raises state arch
        (nested, inputs, install, at, at_arch, install_eq, rootfs, feed, handler) =
      Raises-then (CanFail py args) (make_dir py _) _ (disk-Raises _ _ _) (
        Raises-ok (CanFail py args) (index state arches_key) _ at (
          Raises-ok (CanFail py args) (index nested arch.arch_name) _ at_arch (
            Raises-ok (CanFail py args) (install_inputs state arch.arch_name) _ install_eq (
              Raises-then (CanFail py args) (write_bytes py _ _) _ (disk-Raises _ _ _) (
                Raises-then (CanFail py args) (download py inputs (codes "rootfs") _) _
                  (download-Raises inputs (codes "rootfs") _ rootfs)
                  (Raises-then (CanFail py args) (download py inputs (codes "dependency_feed") _) _
                    (download-Raises inputs (codes "dependency_feed") _ feed)
                    (download_handler-Raises inputs _ handler)))))))

  pub download_arches-Raises :
      (state : Json) (list : List Arch)
      → All (IsReady state) list
      → Raises (CanFail py args) (download_arches py state list)
  unfolding download_arches
  download_arches-Raises state [] h = Raises-pure (CanFail py args) tt
  download_arches-Raises state (arch ∷ more) (ready, h) =
      Raises-then (CanFail py args) (download_arch py state arch) _
        (download_arch-Raises state arch ready) (download_arches-Raises state more h)

  download_shared-Raises :
      (state : Json)
      → IsReadable state (codes "passwall")
      → IsReadable state (codes "passwall_i18n")
      → IsReadable state (codes "dependency_key")
      → Raises (CanFail py args) (download_shared py state)
  unfolding download_shared
  download_shared-Raises state app i18n key =
      Raises-then (CanFail py args) (make_dir py _) _ (disk-Raises _ _ _) (
        Raises-then (CanFail py args) (download py state (codes "passwall") _) _
          (download-Raises state (codes "passwall") _ app)
          (Raises-then (CanFail py args) (download py state (codes "passwall_i18n") _) _
            (download-Raises state (codes "passwall_i18n") _ i18n)
            (Raises-then (CanFail py args) (download py state (codes "dependency_key") _) _
              (download-Raises state (codes "dependency_key") _ key)
              (Raises-pure (CanFail py args) tt))))

  pub shared-Raises :
      (state : Json) → IsState py state → Raises (CanFail py args) (download_shared py state)
  unfolding lacks ◌==◌
  shared-Raises state ((commit, h), _) =
      download_shared-Raises state
        (shared-IsReadable py state commit (codes "passwall") refl refl (λ v k. k) (λ v k. k) h)
        (shared-IsReadable py state commit (codes "passwall_i18n") refl refl (λ v k. k) (λ v k. k)
          h)
        (shared-IsReadable py state commit (codes "dependency_key") refl refl (λ v k. k) (λ v k. k)
          h)
