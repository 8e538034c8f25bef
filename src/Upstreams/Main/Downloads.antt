-- ===== src/Upstreams/Main/Downloads.antt =====
-- What the downloads of `main` leave on the disk.
use landscape_openwrt.Base.{
  ◌≡◌, refl, Reason, ◌⊎◌, inl, inr, Bool, true, List, [], ◌∷◌, ◌++◌, arith, In, Text, Bytes, codes,
  starts_with, ok, require, not_elf, Headers,
}
use landscape_openwrt.Json.{Json, str, index}
use landscape_openwrt.Platform.{Platform, IsLawful}
use landscape_openwrt.Io.{
  World, Event, made_dir, wrote, appended, broke_off, made_executable, make_dir, write_bytes,
  make_executable, ◌>>◌,
}
use landscape_openwrt.Io.Disk.{touch-Keeps, touch-at, touch-then}
use landscape_openwrt.Action.Laws.{Keeps, Keeps-bind, Keeps-then, Keeps-lift}
use landscape_openwrt.Upstreams.Http.{request}
use landscape_openwrt.Upstreams.Http.Trace.{request-Keeps}
use landscape_openwrt.Upstreams.Digest.{digest_of, verify_digest}
use landscape_openwrt.Upstreams.Digest.Laws.{verify_digest-labelled}
use landscape_openwrt.Upstreams.Version.{text_at}
use landscape_openwrt.Upstreams.Inputs.{Arch, arches}
use landscape_openwrt.Upstreams.State.{install_inputs, arches_key}
use landscape_openwrt.Upstreams.Main.{
  elf_magic, download, download_handler, download_arch, download_arches, download_shared,
}

-- The files that are downloaded once, by the key of their checksum.
abbrev pub shared_files : List (Text × Text)
shared_files =
    (codes "passwall", codes "build/shared/passwall.apk")
    ∷ (codes "passwall_i18n", codes "build/shared/passwall-zh.apk")
    ∷ (codes "dependency_key", codes "build/shared/passwall-build.pem")
    ∷ []

-- The files that are downloaded for each architecture.
abbrev pub arch_files : List (Text × Text)
arch_files =
    (codes "rootfs", codes "/rootfs.tar.gz")
    ∷ (codes "dependency_feed", codes "/packages.adb")
    ∷ (codes "handler", codes "/redirect_pkg_handler")
    ∷ []

abbrev pub arch_dir : Arch → Text
arch_dir arch = codes "build/" ++ arch.arch_name

-- `SumOf state path sum`: the resolved state has the checksum `sum` for the file `path`.
pub data SumOf (state : Json) : Text → Text → Type 0 where
  of_shared :
      (key path sum : Text)
      → In (key, path) shared_files
      → text_at (key ++ codes "_sha256") state ≡ ok sum
      → SumOf state path sum
  of_arch :
      (arch : Arch) (key file sum : Text) (nested inputs : Json)
      → In (key, file) arch_files
      → index state arches_key ≡ ok nested
      → index nested arch.arch_name ≡ ok inputs
      → text_at (key ++ codes "_sha256") inputs ≡ ok sum
      → SumOf state (arch_dir arch ++ file) sum

-- The last event wrote an ELF file at the path.
abbrev pub EndsInElf : Text → List Event → Type 0
EndsInElf path log =
    (content : Bytes) × (before : List Event) × (log ≡ wrote path content ∷ before)
    × (starts_with content elf_magic ≡ true)

-- Every file written is one of those allowed, every text appended is, a file to which a write broke off
-- is one of those that may be written or appended to, and every file made executable is an ELF file just
-- written.
abbrev pub AreAllowed : (Text → Bytes → Type 0) → (Text → Text → Type 0) → List Event → Type 0
AreAllowed Allowed MayAppend [] = Unit {0}
AreAllowed Allowed MayAppend (wrote path content ∷ log) =
    Allowed path content × AreAllowed Allowed MayAppend log
AreAllowed Allowed MayAppend (appended path text ∷ log) =
    MayAppend path text × AreAllowed Allowed MayAppend log
AreAllowed Allowed MayAppend (broke_off path ∷ log) =
    (((content : Bytes) × Allowed path content) ⊎ ((text : Text) × MayAppend path text))
    × AreAllowed Allowed MayAppend log
AreAllowed Allowed MayAppend (made_executable path ∷ log) =
    EndsInElf path log × AreAllowed Allowed MayAppend log
AreAllowed Allowed MayAppend (_ ∷ log) = AreAllowed Allowed MayAppend log

module _ (py : Platform) (state : Json) where
  -- What may be written: the inputs of an install layer, or content with the checksum of its path.
  abbrev pub MayWrite : Text → Bytes → Type 0
  MayWrite path content =
      ((arch : Arch) × (path ≡ arch_dir arch ++ codes "/install-inputs.json"))
      ⊎ ((sum : Text) × SumOf state path sum × (digest_of py content ≡ codes "sha256:" ++ sum))

  -- Every file written may be written, none is appended to, and every file made executable is an ELF
  -- file just written.
  abbrev pub IsSound : List Event → Type 0
  IsSound log = AreAllowed MayWrite (λ path text. ⊥) log

-- What the downloads keep, whatever else is allowed.
module _ (py : Platform) (law : IsLawful py) (state : Json) (Allowed : Text → Bytes → Type 0)
    (MayAppend : Text → Text → Type 0)
    (allow : (path : Text) (content : Bytes)
      → MayWrite py state path content
      → Allowed path content) where
  abbrev Log : List Event → Type 0
  Log = AreAllowed Allowed MayAppend

  abbrev Sound : World → Type 0
  Sound w = Log w.log

  pub write-Sound :
      (path : Text) (content : Bytes)
      → Allowed path content
      → Keeps Sound (write_bytes py path content)
  write-Sound path content may =
      touch-Keeps py path (wrote path content) (broke_off path ∷ []) Log (λ log h. (may, h))
        (λ log h. (inl (content, may), h))

  pub make_dir-Sound : (path : Text) → Keeps Sound (make_dir py path)
  make_dir-Sound path = touch-Keeps py path (made_dir path) [] Log (λ log h. h) (λ log h. h)

  request-Sound : (url : Text) (hs : Headers) → Keeps Sound (request py url hs)
  request-Sound url hs =
      request-Keeps py Log (λ u hs log h. h) (λ u e d n log h. h) (λ n log h. h) url hs

  download-Sound :
      (inputs : Json) (key path : Text)
      → ((sum : Text) → text_at (key ++ codes "_sha256") inputs ≡ ok sum → SumOf state path sum)
      → Keeps Sound (download py inputs key path)
  unfolding download
  download-Sound inputs key path known =
      Keeps-lift Sound (text_at (key ++ codes "_url") inputs) _ λ url e.
        Keeps-bind Sound (request py url []) _ (request-Sound url []) λ got.
          Keeps-lift Sound (text_at (key ++ codes "_sha256") inputs) _ λ sum q.
            Keeps-lift Sound (verify_digest py got.0 (str (codes "sha256:" ++ sum))) _ λ _ v.
              Keeps-then Sound (write_bytes py path got.0) _
                (write-Sound path got.0 (
                  allow path got.0
                    (inr (sum, known sum q, verify_digest-labelled py law got.0 sum v))))
                (λ w h. h)

  require-holds : (b : Bool) (r : Reason) → require b r ≡ ok tt → b ≡ true
  require-holds b r h = ground arith

  download_handler-Sound :
      (inputs : Json) (dir : Text)
      → ((sum : Text)
          → text_at (codes "handler_sha256") inputs ≡ ok sum
          → SumOf state (dir ++ codes "/redirect_pkg_handler") sum)
      → Keeps Sound (download_handler py inputs dir)
  unfolding download_handler
  download_handler-Sound inputs dir known =
      Keeps-lift Sound (text_at (codes "handler_url") inputs) _ λ url e.
        Keeps-bind Sound (request py url []) _ (request-Sound url []) λ got.
          Keeps-lift Sound (text_at (codes "handler_sha256") inputs) _ λ sum q.
            Keeps-lift Sound (verify_digest py got.0 (str (codes "sha256:" ++ sum))) _ λ _ v.
              Keeps-lift Sound (require (starts_with got.0 elf_magic) not_elf) _ λ _ elf w h.
                let path = dir ++ codes "/redirect_pkg_handler" in
                let may =
                  allow path got.0
                    (inr (sum, known sum q, verify_digest-labelled py law got.0 sum v)) in
                touch-then py path (wrote path got.0) (broke_off path ∷ []) Log
                  (make_executable py path) w (inl (got.0, may), h)
                  (touch-at py path (made_executable path) [] Log
                    (record w { log = wrote path got.0 ∷ w.log })
                    (
                      (got.0, w.log, refl, require-holds (starts_with got.0 elf_magic) not_elf elf),
                      (may, h),
                    )
                    (may, h))

  download_arch-Sound : (arch : Arch) → Keeps Sound (download_arch py state arch)
  unfolding download_arch
  download_arch-Sound arch =
      let dir = arch_dir arch in
      Keeps-then Sound (make_dir py dir) _ (make_dir-Sound dir) (
        Keeps-lift Sound (index state arches_key) _ λ nested e.
          Keeps-lift Sound (index nested arch.arch_name) _ λ inputs f.
            Keeps-lift Sound (install_inputs state arch.arch_name) _ λ install _.
              Keeps-then Sound (write_bytes py (dir ++ codes "/install-inputs.json") _) _
                (write-Sound _ _ (allow _ _ (inl (arch, refl))))
                (Keeps-then Sound
                  (download py inputs (codes "rootfs") (dir ++ codes "/rootfs.tar.gz")) _
                  (download-Sound inputs _ _ λ sum q.
                    of_arch arch (codes "rootfs") (codes "/rootfs.tar.gz") sum nested inputs
                      (inl refl) e f q)
                  (Keeps-then Sound
                    (download py inputs (codes "dependency_feed") (dir ++ codes "/packages.adb")) _
                    (download-Sound inputs _ _ λ sum q.
                      of_arch arch (codes "dependency_feed") (codes "/packages.adb") sum nested
                        inputs (inr (inl refl)) e f q)
                    (download_handler-Sound inputs dir λ sum q.
                      of_arch arch (codes "handler") (codes "/redirect_pkg_handler") sum nested
                        inputs (inr (inr (inl refl))) e f q))))

  pub download_arches-Sound : (list : List Arch) → Keeps Sound (download_arches py state list)
  unfolding download_arches
  download_arches-Sound [] w h = h
  download_arches-Sound (arch ∷ more) w h =
      Keeps-then Sound (download_arch py state arch) _ (download_arch-Sound arch)
        (download_arches-Sound more) w h

  pub download_shared-Sound : Keeps Sound (download_shared py state)
  unfolding download_shared
  download_shared-Sound =
      Keeps-then Sound (make_dir py (codes "build/shared")) _ (make_dir-Sound _) (
        Keeps-then Sound (download py state (codes "passwall") (codes "build/shared/passwall.apk"))
          _
          (download-Sound state _ _ λ sum q.
            of_shared (codes "passwall") (codes "build/shared/passwall.apk") sum (inl refl) q)
          (Keeps-then Sound
            (download py state (codes "passwall_i18n") (codes "build/shared/passwall-zh.apk")) _
            (download-Sound state _ _ λ sum q.
              of_shared (codes "passwall_i18n") (codes "build/shared/passwall-zh.apk") sum
                (inr (inl refl)) q)
            (Keeps-then Sound
              (download py state (codes "dependency_key") (codes "build/shared/passwall-build.pem"))
              _
              (download-Sound state _ _ λ sum q.
                of_shared (codes "dependency_key") (codes "build/shared/passwall-build.pem") sum
                  (inr (inr (inl refl))) q)
              (λ u g. g))))

module _ (py : Platform) (law : IsLawful py) (state : Json) where
  -- Whatever the network answers, and whether the downloads end or raise: each of their files has the
  -- SHA-256 that the resolved state names for its path or is an `install-inputs.json`, a file whose
  -- writing failed is one of these, nothing is appended to a file, and only an ELF file that was just
  -- written is made executable, if all that held for the run before.
  pub downloads-Sound :
      (w : World)
      → IsSound py state w.log
      → IsSound py state ((download_shared py state >> download_arches py state arches) w).1.log
  downloads-Sound =
      let allow = λ (path : Text) (content : Bytes) (may : MayWrite py state path content). may in
      Keeps-then (λ w. IsSound py state w.log) (download_shared py state)
        (download_arches py state arches)
        (download_shared-Sound py law state (MayWrite py state) (λ path text. ⊥) allow)
        (download_arches-Sound py law state (MayWrite py state) (λ path text. ⊥) allow arches)
