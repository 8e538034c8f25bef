-- ===== src/Upstreams/Main/Left.antt =====
-- What the downloads of `main` leave when they return.
use landscape_openwrt.Base.{
  ◌≡◌, inr, List, [], ◌∷◌, ◌++◌, In, Text, Bytes, codes, starts_with, ok, require, not_elf,
}
use landscape_openwrt.Base.Dict.{Dict}
use landscape_openwrt.Json.{Json, str, obj, of_dict, index}
use landscape_openwrt.Platform.{Platform, IsLawful}
use landscape_openwrt.Action.{◌>>◌}
use landscape_openwrt.Action.Laws.{Keeps, Keeps-then}
use landscape_openwrt.Io.{World, Event, wrote, made_executable, make_dir, write_bytes}
use landscape_openwrt.Io.Disk.{touch-Keeps}
use landscape_openwrt.Upstreams.Http.{request}
use landscape_openwrt.Upstreams.Digest.{digest_of, verify_digest}
use landscape_openwrt.Upstreams.Digest.Laws.{verify_digest-labelled}
use landscape_openwrt.Upstreams.Version.{text_at}
use landscape_openwrt.Upstreams.Inputs.{Arch}
use landscape_openwrt.Upstreams.State.{install_inputs, arches_key}
use landscape_openwrt.Upstreams.Main.{elf_magic, download, download_handler, download_arch}
use landscape_openwrt.Upstreams.Main.Downloads.{arch_dir}
use landscape_openwrt.Upstreams.Main.Grows.{IsLasting, download-Keeps, download_handler-Keeps}
use landscape_openwrt.Upstreams.Main.Leaves.{
  Leaves, Leaves-bind, Leaves-lift, Leaves-both, Leaves-map, Took, Took-IsLasting, touch-Leaves,
}

module _ (py : Platform) where
  -- A download is there, and has the checksum that the inputs name for it.
  abbrev pub IsLeft : Json → Text → Text → List Event → Type 0
  IsLeft inputs key path log =
      (content : Bytes) × (sum : Text) × (text_at (key ++ codes "_sha256") inputs ≡ ok sum)
      × (digest_of py content ≡ codes "sha256:" ++ sum)
      × In (wrote path content) log

  pub IsLeft-IsLasting : (inputs : Json) (key path : Text) → IsLasting (IsLeft inputs key path)
  IsLeft-IsLasting inputs key path e log (content, sum, at, same, m) =
      (content, sum, at, same, inr m)

  -- The files of an architecture: the inputs of its install layer, its downloads, and the handler,
  -- which can be executed.
  abbrev pub IsArchLeft : Json → Arch → List Event → Type 0
  IsArchLeft state arch log =
      (nested : Json) × (inputs : Json) × (install : Dict Json) × (index state arches_key
        ≡ ok nested)
      × (index nested arch.arch_name ≡ ok inputs)
      × (install_inputs state arch.arch_name ≡ ok install)
      × In
          (wrote (arch_dir arch ++ codes "/install-inputs.json")
            (py.encode (py.dumps_indented_sorted (obj (of_dict install)) ++ (10 ∷ []))))
          log
      × IsLeft inputs (codes "rootfs") (arch_dir arch ++ codes "/rootfs.tar.gz") log
      × IsLeft inputs (codes "dependency_feed") (arch_dir arch ++ codes "/packages.adb") log
      × IsLeft inputs (codes "handler") (arch_dir arch ++ codes "/redirect_pkg_handler") log
      × In (made_executable (arch_dir arch ++ codes "/redirect_pkg_handler")) log

  pub IsArchLeft-IsLasting : (state : Json) (arch : Arch) → IsLasting (IsArchLeft state arch)
  IsArchLeft-IsLasting state arch e log (n, i, install, a, b, c, m, root, feed, handler, x) = (
    n,
    i,
    install,
    a,
    b,
    c,
    inr m,
    IsLeft-IsLasting i (codes "rootfs") _ e log root,
    IsLeft-IsLasting i (codes "dependency_feed") _ e log feed,
    IsLeft-IsLasting i (codes "handler") _ e log handler,
    inr x,
  )

module _ (py : Platform) (law : IsLawful py) where
  pub download-Leaves :
      (inputs : Json) (key path : Text)
      → Leaves (IsLeft py inputs key path) (download py inputs key path)
  unfolding download
  download-Leaves inputs key path =
      let P = IsLeft py inputs key path in
      Leaves-lift P (text_at (key ++ codes "_url") inputs) _ λ url _.
        Leaves-bind P (request py url []) _ λ got.
          Leaves-lift P (text_at (key ++ codes "_sha256") inputs) _ λ sum at.
            Leaves-lift P (verify_digest py got.0 (str (codes "sha256:" ++ sum))) _ λ _ passed.
              Leaves-map (λ log. Took (wrote path got.0) log × Unit {0}) P _
                (λ log took.
                  (got.0, sum, at, verify_digest-labelled py law got.0 sum passed, took.0))
                (Leaves-both (Took (wrote path got.0)) (λ log. Unit {0}) (write_bytes py path got.0)
                  _ (touch-Leaves py path _ _) (λ _ w h. h) (λ _ a w v h. tt))

  download_handler-Leaves :
      (inputs : Json) (dir : Text)
      → Leaves
          (λ log.
            IsLeft py inputs (codes "handler") (dir ++ codes "/redirect_pkg_handler") log
            × In (made_executable (dir ++ codes "/redirect_pkg_handler")) log)
          (download_handler py inputs dir)
  unfolding download_handler
  download_handler-Leaves inputs dir =
      let P = λ (log : List Event).
        IsLeft py inputs (codes "handler") (dir ++ codes "/redirect_pkg_handler") log
        × In (made_executable (dir ++ codes "/redirect_pkg_handler")) log in
      Leaves-lift P (text_at (codes "handler_url") inputs) _ λ url _.
        Leaves-bind P (request py url []) _ λ got.
          Leaves-lift P (text_at (codes "handler_sha256") inputs) _ λ sum at.
            Leaves-lift P (verify_digest py got.0 (str (codes "sha256:" ++ sum))) _ λ _ passed.
              Leaves-lift P (require (starts_with got.0 elf_magic) not_elf) _ λ _ _.
                let path = dir ++ codes "/redirect_pkg_handler" in
                Leaves-map (λ log. Took (wrote path got.0) log × Took (made_executable path) log) P
                  _
                  (λ log took. (
                    (got.0, sum, at, verify_digest-labelled py law got.0 sum passed, took.0),
                    took.1,
                  ))
                  (Leaves-both (Took (wrote path got.0)) (Took (made_executable path))
                    (write_bytes py path got.0) _ (touch-Leaves py path _ _)
                    (λ _.
                      touch-Keeps py path (made_executable path) [] (Took (wrote path got.0))
                        (λ log. Took-IsLasting (wrote path got.0) (made_executable path) log)
                        (λ log h. h))
                    (λ _. touch-Leaves py path _ _))

  -- The downloads of an architecture behind one another.
  feed-Keeps :
      (P : List Event → Type 0)
      → IsLasting P
      → (inputs : Json) (dir : Text)
      → Keeps
          (λ (w : World). P w.log)
          (download py inputs (codes "dependency_feed") (dir ++ codes "/packages.adb")
            >> download_handler py inputs dir)
  feed-Keeps P lasting inputs dir =
      Keeps-then (λ (w : World). P w.log) (download py inputs (codes "dependency_feed") _) _
        (download-Keeps py P lasting inputs (codes "dependency_feed") _)
        (download_handler-Keeps py P lasting inputs dir)

  rootfs-Keeps :
      (P : List Event → Type 0)
      → IsLasting P
      → (inputs : Json) (dir : Text)
      → Keeps
          (λ (w : World). P w.log)
          (download py inputs (codes "rootfs") (dir ++ codes "/rootfs.tar.gz")
            >> (download py inputs (codes "dependency_feed") (dir ++ codes "/packages.adb")
                >> download_handler py inputs dir))
  rootfs-Keeps P lasting inputs dir =
      Keeps-then (λ (w : World). P w.log) (download py inputs (codes "rootfs") _) _
        (download-Keeps py P lasting inputs (codes "rootfs") _) (feed-Keeps P lasting inputs dir)

  pub download_arch-Leaves :
      (state : Json) (arch : Arch) → Leaves (IsArchLeft py state arch) (download_arch py state arch)
  unfolding download_arch
  download_arch-Leaves state arch =
      let P = IsArchLeft py state arch in
      let dir = arch_dir arch in
      Leaves-bind P (make_dir py dir) _ λ _. Leaves-lift P (index state arches_key) _ (λ nested e.
        Leaves-lift P (index nested arch.arch_name) _ λ inputs f.
          Leaves-lift P (install_inputs state arch.arch_name) _ λ install g.
            let event =
              wrote (dir ++ codes "/install-inputs.json")
                (py.encode (py.dumps_indented_sorted (obj (of_dict install)) ++ (10 ∷ []))) in
            let Root = IsLeft py inputs (codes "rootfs") (dir ++ codes "/rootfs.tar.gz") in
            let Feed = IsLeft py inputs (codes "dependency_feed") (dir ++ codes "/packages.adb") in
            let Handler = λ (log : List Event).
              IsLeft py inputs (codes "handler") (dir ++ codes "/redirect_pkg_handler") log
              × In (made_executable (dir ++ codes "/redirect_pkg_handler")) log in
            Leaves-map (λ log. Took event log × (Root log × (Feed log × Handler log))) P _
              (λ log left.
                let (took, (root, (feed, (handler, x)))) = left in
                (nested, inputs, install, e, f, g, took, root, feed, handler, x))
              (Leaves-both (Took event) (λ log. Root log × (Feed log × Handler log))
                (write_bytes py _ _) _ (touch-Leaves py _ event _)
                (λ _. rootfs-Keeps (Took event) (Took-IsLasting event) inputs dir)
                (λ _.
                  Leaves-both Root (λ log. Feed log × Handler log)
                    (download py inputs (codes "rootfs") _) _
                    (download-Leaves inputs (codes "rootfs") _)
                    (λ _.
                      feed-Keeps Root (IsLeft-IsLasting py inputs (codes "rootfs") _) inputs dir)
                    (λ _.
                      Leaves-both Feed Handler (download py inputs (codes "dependency_feed") _) _
                        (download-Leaves inputs (codes "dependency_feed") _)
                        (λ _.
                          download_handler-Keeps py Feed
                            (IsLeft-IsLasting py inputs (codes "dependency_feed") _) inputs dir)
                        (λ _. download_handler-Leaves inputs dir)))))
