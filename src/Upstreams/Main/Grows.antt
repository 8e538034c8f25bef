-- ===== src/Upstreams/Main/Grows.antt =====
-- Behind the decision to build, a run only adds to what was done before.
use landscape_openwrt.Base.{
  Bool, List, [], ◌∷◌, ◌++◌, starts_with, Text, Bytes, Headers, codes, require, not_elf,
}
use landscape_openwrt.Json.{Json, str, index}
use landscape_openwrt.Platform.{Platform}
use landscape_openwrt.Action.Laws.{Keeps, Keeps-bind, Keeps-then, Keeps-lift}
use landscape_openwrt.Io.{
  World, Event, opened, warned, slept, appended, printed, made_dir, wrote, made_executable,
  broke_off, make_dir, write_bytes,
}
use landscape_openwrt.Io.Disk.{touch-Keeps}
use landscape_openwrt.Upstreams.Http.{request}
use landscape_openwrt.Upstreams.Http.Trace.{request-Keeps}
use landscape_openwrt.Upstreams.Digest.{verify_digest}
use landscape_openwrt.Upstreams.Version.{text_at}
use landscape_openwrt.Upstreams.Inputs.{Arch}
use landscape_openwrt.Upstreams.State.{install_inputs, arches_key}
use landscape_openwrt.Upstreams.Main.Publish.{publish_outputs-Keeps}
use landscape_openwrt.Upstreams.Main.{
  elf_magic, download, download_handler, download_arch, download_arches, download_shared,
  publish_outputs,
}

-- A property of the events so far that no further event ends.
abbrev pub IsLasting : (List Event → Type 0) → Type 0
IsLasting P = (event : Event) (log : List Event) → P log → P (event ∷ log)

module _ (py : Platform) (P : List Event → Type 0) (lasting : IsLasting P) where
  abbrev Holds : World → Type 0
  Holds w = P w.log

  requests : (url : Text) (hs : Headers) → Keeps Holds (request py url hs)
  requests =
      request-Keeps py P (λ url hs log h. lasting (opened url hs) log h)
        (λ url e d n log h. lasting (warned url e d n) log h) (λ n log h. lasting (slept n) log h)

  pub make_dir-Keeps : (path : Text) → Keeps Holds (make_dir py path)
  make_dir-Keeps path =
      touch-Keeps py path (made_dir path) [] P (λ log. lasting (made_dir path) log) (λ log h. h)

  pub write-Keeps : (path : Text) (content : Bytes) → Keeps Holds (write_bytes py path content)
  write-Keeps path content =
      touch-Keeps py path (wrote path content) (broke_off path ∷ []) P
        (λ log. lasting (wrote path content) log) (λ log. lasting (broke_off path) log)

  pub download-Keeps : (inputs : Json) (key path : Text) → Keeps Holds (download py inputs key path)
  unfolding download
  download-Keeps inputs key path =
      Keeps-lift Holds (text_at (key ++ codes "_url") inputs) _ λ url _.
        Keeps-bind Holds (request py url []) _ (requests url []) λ got.
          Keeps-lift Holds (text_at (key ++ codes "_sha256") inputs) _ λ sum _.
            Keeps-lift Holds (verify_digest py got.0 (str (codes "sha256:" ++ sum))) _ λ _ _.
              Keeps-then Holds (write_bytes py path got.0) _ (write-Keeps path got.0) (λ w h. h)

  pub download_handler-Keeps :
      (inputs : Json) (dir : Text) → Keeps Holds (download_handler py inputs dir)
  unfolding download_handler
  download_handler-Keeps inputs dir =
      Keeps-lift Holds (text_at (codes "handler_url") inputs) _ λ url _.
        Keeps-bind Holds (request py url []) _ (requests url []) λ got.
          Keeps-lift Holds (text_at (codes "handler_sha256") inputs) _ λ sum _.
            Keeps-lift Holds (verify_digest py got.0 (str (codes "sha256:" ++ sum))) _ λ _ _.
              Keeps-lift Holds (require (starts_with got.0 elf_magic) not_elf) _ λ _ _.
                Keeps-then Holds (write_bytes py _ got.0) _ (write-Keeps _ got.0) (
                  touch-Keeps py _ (made_executable _) [] P (λ log. lasting (made_executable _) log)
                    (λ log h. h))

  pub download_arch-Keeps : (state : Json) (arch : Arch) → Keeps Holds (download_arch py state arch)
  unfolding download_arch
  download_arch-Keeps state arch = Keeps-then Holds (make_dir py _) _ (make_dir-Keeps _) (
      Keeps-lift Holds (index state arches_key) _ λ nested _.
        Keeps-lift Holds (index nested arch.arch_name) _ λ inputs _.
          Keeps-lift Holds (install_inputs state arch.arch_name) _ λ install _.
            Keeps-then Holds (write_bytes py _ _) _ (write-Keeps _ _) (
              Keeps-then Holds (download py inputs (codes "rootfs") _) _ (download-Keeps inputs _ _)
                (Keeps-then Holds (download py inputs (codes "dependency_feed") _) _
                  (download-Keeps inputs _ _) (download_handler-Keeps inputs _))))

  pub download_arches-Keeps :
      (state : Json) (list : List Arch) → Keeps Holds (download_arches py state list)
  unfolding download_arches
  download_arches-Keeps state [] = λ w h. h
  download_arches-Keeps state (arch ∷ more) =
      Keeps-then Holds (download_arch py state arch) _ (download_arch-Keeps state arch)
        (download_arches-Keeps state more)

  pub download_shared-Keeps : (state : Json) → Keeps Holds (download_shared py state)
  unfolding download_shared
  download_shared-Keeps state = Keeps-then Holds (make_dir py _) _ (make_dir-Keeps _) (
      Keeps-then Holds (download py state (codes "passwall") _) _ (download-Keeps state _ _) (
        Keeps-then Holds (download py state (codes "passwall_i18n") _) _ (download-Keeps state _ _)
          (Keeps-then Holds (download py state (codes "dependency_key") _) _
            (download-Keeps state _ _) (λ w h. h))))

  pub publish-Keeps : (state : Json) (build : Bool) → Keeps Holds (publish_outputs py state build)
  publish-Keeps state =
      publish_outputs-Keeps py P state (λ path log _. lasting (appended path []) log)
        (λ path log _. lasting (broke_off path) log)
        (λ path key value flat build log _ _ _. lasting (appended path _) log)
        (λ text log h. lasting (printed text) log h)
