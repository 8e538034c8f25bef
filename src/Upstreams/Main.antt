-- ===== src/Upstreams/Main.antt =====
-- `main` of scripts/upstreams.py: whether to build, the downloads, and the outputs.
pub mod Decision
pub mod Downloads
pub mod Outputs
pub mod Reads
pub mod Failures
pub mod Errors
pub mod Quiet
pub mod Publish
pub mod Sound
pub mod Grows
pub mod Leaves
pub mod Left
pub mod Complete
use landscape_openwrt.Base.{
  ℕ, Bool, true, false, not, ◌&&◌, ◌||◌, Option, none, some, List, [], ◌∷◌, ◌++◌, if◌then◌else◌,
  eqb, Text, Bytes, codes, ◌==◌, starts_with, remove_prefix, Result, ok, raise, Error, http_error,
  value_error, image_not_on_ghcr, not_elf, require, ◌>>=◌ as bind,
}
use landscape_openwrt.Base.Dict
use landscape_openwrt.Base.Dict.{Dict}
use landscape_openwrt.Json.{Json, end, str, obj, of_dict, get, index, as_text, truthy, null}
use landscape_openwrt.Platform.{Platform}
use landscape_openwrt.Io.{
  Io, World, pure, throw, lift, emit, make_dir, write_bytes, append_text, make_executable, printed,
  ◌>>=◌, ◌>>◌,
}
use landscape_openwrt.Upstreams.Http.{request}
use landscape_openwrt.Upstreams.Digest.{verify_digest, or_empty}
use landscape_openwrt.Upstreams.Version.{text_at}
use landscape_openwrt.Upstreams.Release.{get_or}
use landscape_openwrt.Upstreams.Registry.{formatted, open_registry, amd64}
use landscape_openwrt.Upstreams.Inputs.{Arch, arches}
use landscape_openwrt.Upstreams.State.{same_inputs, install_inputs, flatten_outputs, arches_key}
use landscape_openwrt.Upstreams.Resolve.{resolve}

-- The parsed command line.
pub record Args : Type 0 where
  pub image : Text
  pub force : Bool
  pub first_build : Bool

-- The `except` clause: the errors that stand for a first publication.
unfoldable pub is_first_publication : Args → Error → Bool
is_first_publication args (http_error code headers) =
    eqb code 404 || (args.first_build && (eqb code 401 || eqb code 403))
is_first_publication args _ = false

-- `config.get("config", {}).get("Labels") or {}`
unfoldable pub labels_of : Json → Result Json
unfolding get_or truthy
labels_of config = bind (get_or config (codes "config") (obj end)) λ inner.
    bind (get_or inner (codes "Labels") null)
      λ labels. ok (if truthy labels then labels else obj end)

-- `args.force or not same_inputs(…)`
unfoldable pub build_for : Args → Json → Json → Result Bool
build_for args config state =
    if args.force
    then ok true
    else bind (labels_of config) (λ labels. bind (same_inputs labels state) (λ same. ok (not same)))

abbrev pub elf_magic : Bytes
elf_magic = 0x7f ∷ b'E' ∷ b'L' ∷ b'F' ∷ 2 ∷ 1 ∷ []

-- The outcome of the `try` statement.
unfoldable pub settle : Args → Result Bool × World → Result Bool × World
unfolding is_first_publication
settle args (ok build, w) = (ok build, w)
settle args (raise e, w) =
    if is_first_publication args e
    then (
      ok true,
      record w {
        log = printed (codes "No previous readable image; initializing first publication.") ∷ w.log;
      },
    )
    else (raise e, w)

-- `f"{key}={value}\n"`
abbrev pub output_line : Text → Text → Text
output_line key value = key ++ (codes "=" ++ (value ++ (10 ∷ [])))

module _ (py : Platform) where
  -- The body of the `try` statement.
  unfoldable pub compare_published : Args → Text → Json → Io Bool
  compare_published args repository state = do
    registry ←
        open_registry py (codes "ghcr.io") repository (py.environ (codes "GITHUB_ACTOR"))
          (py.environ (codes "GH_TOKEN"))
    (_, config) ← amd64 py registry (codes "latest")
    lift (build_for args config state)

  unfoldable pub decide_build : Args → Json → Io Bool
  decide_build args state w =
      if starts_with args.image (codes "ghcr.io/")
      then settle args
          (compare_published args (remove_prefix (codes "ghcr.io/") args.image) state w)
      else (raise (value_error image_not_on_ghcr), w)

  -- One download: the content at `inputs[key + "_url"]` is written only if its digest is
  -- `inputs[key + "_sha256"]`.
  unfoldable pub download : Json → Text → Text → Io Bytes
  download inputs key path = do
    url ← lift (text_at (key ++ codes "_url") inputs)
    (content, _) ← request py url []
    sum ← lift (text_at (key ++ codes "_sha256") inputs)
    lift (verify_digest py content (str (codes "sha256:" ++ sum)))
    write_bytes py path content
    pure content

  -- The files of one architecture, the handler last.
  unfoldable pub download_handler : Json → Text → Io Unit
  download_handler inputs dir = do
    url ← lift (text_at (codes "handler_url") inputs)
    (binary, _) ← request py url []
    sum ← lift (text_at (codes "handler_sha256") inputs)
    lift (verify_digest py binary (str (codes "sha256:" ++ sum)))
    lift (require (starts_with binary elf_magic) not_elf)
    write_bytes py (dir ++ codes "/redirect_pkg_handler") binary
    make_executable py (dir ++ codes "/redirect_pkg_handler")

  unfoldable pub download_arch : Json → Arch → Io Unit
  download_arch state arch = do
    let dir = codes "build/" ++ arch.arch_name
    make_dir py dir
    nested ← lift (index state arches_key)
    inputs ← lift (index nested arch.arch_name)
    install ← lift (install_inputs state arch.arch_name)
    write_bytes py (dir ++ codes "/install-inputs.json")
        (py.encode (py.dumps_indented_sorted (obj (of_dict install)) ++ (10 ∷ [])))
    download inputs (codes "rootfs") (dir ++ codes "/rootfs.tar.gz")
    download inputs (codes "dependency_feed") (dir ++ codes "/packages.adb")
    download_handler inputs dir

  unfoldable pub download_arches : Json → List Arch → Io Unit
  download_arches state [] = pure tt
  download_arches state (arch ∷ more) = do download_arch state arch; download_arches state more

  unfoldable pub download_shared : Json → Io Unit
  download_shared state = do
    make_dir py (codes "build/shared")
    download state (codes "passwall") (codes "build/shared/passwall.apk")
    download state (codes "passwall_i18n") (codes "build/shared/passwall-zh.apk")
    download state (codes "dependency_key") (codes "build/shared/passwall-build.pem")
    pure tt

  -- A line of `GITHUB_OUTPUT`; there is none for `None`.
  unfoldable pub write_output : Text → Text → Json → Io Unit
  write_output path key null = pure tt
  write_output path key value = append_text py path (output_line key (formatted py value))

  unfoldable pub write_outputs : Text → Dict Json → Io Unit
  unfolding write_output
  write_outputs path [] = pure tt
  write_outputs path ((key, value) ∷ more) = do write_output path key value; write_outputs path more

  -- They are written if the environment names a file, which is opened first.
  unfoldable pub append_outputs : Option Text → Dict Json → Io Unit
  append_outputs (some (c ∷ path)) outputs = do
    append_text py (c ∷ path) []
    write_outputs (c ∷ path) outputs
  append_outputs (some []) outputs = pure tt
  append_outputs none outputs = pure tt

  -- `outputs["build"] = str(build).lower()`
  abbrev pub with_build : Bool → Dict Json → Dict Json
  with_build build flat =
      Dict.insert (codes "build") (str (if build then codes "true" else codes "false")) flat

  unfoldable pub publish_outputs : Json → Bool → Io Unit
  unfolding Dict.insert
  publish_outputs state build = do
    flat ← lift (flatten_outputs state)
    let outputs = with_build build flat
    append_outputs (py.environ (codes "GITHUB_OUTPUT")) outputs
    emit (printed (py.dumps_indented (obj (of_dict outputs))))

  unfoldable pub main : Args → Io Unit
  main args = do
    state ← resolve py
    build ← decide_build args state
    make_dir py (codes "build")
    write_bytes py (codes "build/upstream.json") (py.encode (py.dumps_indented state ++ (10 ∷ [])))
    download_shared state
    download_arches state arches
    publish_outputs state build
