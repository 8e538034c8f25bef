-- ===== src/Upstreams/Main/Quiet.antt =====
-- `resolve` and the decision to build leave no file behind: they make requests, print and wait.
use landscape_openwrt.Base.{◌>>=◌ as bind}
use landscape_openwrt.Base.{
  ◌+◌, require, wrong_platform, unexpected_version_format, ℕ, zero, suc, Bool, true, false,
  Bool-cases, inl, inr, Option, List, [], ◌∷◌, ltb, length, Text, Headers, Error, Result, ok, raise,
  codes, starts_with, remove_prefix,
}
use landscape_openwrt.Regex.{Regex, fullmatch}
use landscape_openwrt.Json.{Json, str, elements, index}
use landscape_openwrt.Platform.{Platform, Float}
use landscape_openwrt.Action.Laws.{Keeps, Keeps-bind, Keeps-then, Keeps-lift, Keeps-if}
use landscape_openwrt.Io.{World, Event, opened, warned, slept, noticed, printed}
use landscape_openwrt.Upstreams.Http.{request, json_request, load_json}
use landscape_openwrt.Upstreams.Http.Trace.{request-Keeps}
use landscape_openwrt.Upstreams.Digest.{verify_digest}
use landscape_openwrt.Upstreams.Version.{
  latest_stable_tag, name_field, text_at, tag_pattern, passwall_pattern,
}
use landscape_openwrt.Upstreams.Release.{
  tag_field, pick_release, newest_stable_release, notice_skipped,
}
use landscape_openwrt.Upstreams.Inputs.{
  Arch, arches, decode_text, rootfs_name, select_handler, resolve_arch_inputs,
}
use landscape_openwrt.Upstreams.Checksum.{rootfs_checksum}
use landscape_openwrt.Upstreams.Registry.{
  token_service, token_of, named_digest, verify_reference, select_entry, has_key, is_config_for,
  Registry, formatted, open_registry, fetch, manifest, platform_manifest, platform_config, amd64,
}
use landscape_openwrt.Upstreams.Resolve.{
  check_base, drop_first, passwall_packages, passwall_api, landscape_api, ascii_tag_pattern,
  api_headers, tag_pages, resolve_base, resolve_passwall, resolve_landscape, check_key,
  resolve_arches, source_revision, state_fields, resolve,
}
use landscape_openwrt.Upstreams.Main.{
  Args, is_first_publication, settle, compare_published, decide_build,
}

-- A property of the events so far that requests, warnings, pauses, notices and lines of output keep.
pub record IsKept (P : List Event → Type 0) : Type 0 where
  pub after_opened :
      (url : Text) (hs : Headers) (log : List Event) → P log → P (opened url hs ∷ log)
  pub after_warned :
      (url : Text) (e : Error) (d : Float) (n : ℕ) (log : List Event)
      → P log
      → P (warned url e d n ∷ log)
  pub after_slept : (n : ℕ) (log : List Event) → P log → P (slept n ∷ log)
  pub after_noticed :
      (tags : List Text) (tag : Text) (log : List Event) → P log → P (noticed tags tag ∷ log)
  pub after_printed : (text : Text) (log : List Event) → P log → P (printed text ∷ log)

module _ (py : Platform) (P : List Event → Type 0) (kept : IsKept P) where
  abbrev Holds : World → Type 0
  Holds w = P w.log

  requests : (url : Text) (hs : Headers) → Keeps Holds (request py url hs)
  requests = request-Keeps py P kept.after_opened kept.after_warned kept.after_slept

  json_request-Keeps : (url : Text) (hs : Headers) → Keeps Holds (json_request py url hs)
  unfolding json_request
  json_request-Keeps url hs = Keeps-bind Holds (request py url hs) _ (requests url hs) λ got w h. h

  tag_pages-Keeps : (hs : Headers) (left page : ℕ) → Keeps Holds (tag_pages py hs left page)
  unfolding tag_pages
  tag_pages-Keeps hs zero page = λ w h. h
  tag_pages-Keeps hs (suc left) page =
      Keeps-bind Holds (json_request py _ hs) _ (json_request-Keeps _ hs) λ batch.
        Keeps-lift Holds (elements batch) _ λ tags _.
          Keeps-if Holds (ltb (length tags) 100) _ _ (λ w h. h)
            (Keeps-bind Holds (tag_pages py hs left (page + 1)) _
              (tag_pages-Keeps hs left (page + 1)) λ more w h. h)

  resolve_base-Keeps : (hs : Headers) → Keeps Holds (resolve_base py hs)
  unfolding resolve_base
  resolve_base-Keeps hs =
      Keeps-bind Holds (tag_pages py hs 10 1) _ (tag_pages-Keeps hs 10 1) λ tags.
        Keeps-lift Holds (latest_stable_tag py tags) _ λ base _.
          Keeps-lift Holds (text_at name_field base) _
            λ name _. Keeps-lift Holds (check_base py (drop_first name)) _ λ _ _ w h. h

  notice_skipped-Keeps :
      (newest : Json) (tags : List Text) → Keeps Holds (notice_skipped newest tags)
  unfolding notice_skipped
  notice_skipped-Keeps newest [] = λ w h. h
  notice_skipped-Keeps newest (t ∷ ts) =
      Keeps-lift Holds (text_at tag_field newest) _
        λ tag _ w h. kept.after_noticed (t ∷ ts) tag w.log h

  newest-Keeps :
      (listed : Json) (pattern : Regex) → Keeps Holds (newest_stable_release py listed pattern)
  unfolding newest_stable_release
  newest-Keeps listed pattern =
      Keeps-lift Holds (bind (elements listed) (pick_release py pattern)) _ λ picked _.
        Keeps-then Holds (notice_skipped picked.0 picked.1) _
          (notice_skipped-Keeps picked.0 picked.1) (λ w h. h)

  resolve_passwall-Keeps : (hs : Headers) → Keeps Holds (resolve_passwall py hs)
  unfolding resolve_passwall
  resolve_passwall-Keeps hs =
      Keeps-bind Holds (json_request py passwall_api hs) _ (json_request-Keeps passwall_api hs)
        λ listed.
          Keeps-bind Holds (newest_stable_release py listed (passwall_pattern py)) _
            (newest-Keeps listed (passwall_pattern py))
            λ release. Keeps-lift Holds (passwall_packages py release) _ λ packages _ w h. h

  resolve_landscape-Keeps : (hs : Headers) → Keeps Holds (resolve_landscape py hs)
  unfolding resolve_landscape
  resolve_landscape-Keeps hs =
      Keeps-bind Holds (json_request py landscape_api hs) _ (json_request-Keeps landscape_api hs)
        λ listed.
          Keeps-bind Holds (newest_stable_release py listed (tag_pattern py)) _
            (newest-Keeps listed (tag_pattern py))
            λ release. Keeps-lift Holds (text_at tag_field release) _ λ tag _.
              Keeps-lift Holds (require (fullmatch ascii_tag_pattern tag) unexpected_version_format)
                _ λ _ _ w h. h

  check_key-Keeps : Keeps Holds (check_key py)
  unfolding check_key
  check_key-Keeps = Keeps-bind Holds (request py _ []) _ (requests _ []) λ got w h. h

  resolve_arch_inputs-Keeps :
      (version : Text) (release : Json) (arch : Arch)
      → Keeps Holds (resolve_arch_inputs py version release arch)
  unfolding resolve_arch_inputs
  resolve_arch_inputs-Keeps version release arch =
      Keeps-bind Holds (request py _ []) _ (requests _ []) λ sums.
        Keeps-lift Holds (decode_text py sums.0) _ λ checksums _.
          Keeps-lift Holds (rootfs_checksum checksums (rootfs_name version arch)) _ λ sum _.
            Keeps-bind Holds (request py _ []) _ (requests _ []) λ feed.
              Keeps-lift Holds (select_handler release arch) _
                λ handler _. Keeps-lift Holds (text_at tag_field release) _ λ tag _ w h. h

  resolve_arches-Keeps :
      (version : Text) (release : Json) (tag : Text) (list : List Arch)
      → Keeps Holds (resolve_arches py version release tag list)
  unfolding resolve_arches
  resolve_arches-Keeps version release tag [] = λ w h. h
  resolve_arches-Keeps version release tag (arch ∷ more) =
      Keeps-bind Holds (resolve_arch_inputs py version release arch) _
        (resolve_arch_inputs-Keeps version release arch)
        λ inputs.
          Keeps-bind Holds (resolve_arches py version release tag more) _
            (resolve_arches-Keeps version release tag more) λ rest w h. h

  pub resolve-Keeps : Keeps Holds (resolve py)
  unfolding resolve
  resolve-Keeps =
      let hs = api_headers (py.environ (codes "GH_TOKEN")) in
      Keeps-bind Holds (resolve_base py hs) _ (resolve_base-Keeps hs) λ base.
        Keeps-bind Holds (resolve_passwall py hs) _ (resolve_passwall-Keeps hs) λ packages.
          Keeps-bind Holds (resolve_landscape py hs) _ (resolve_landscape-Keeps hs) λ landscape.
            Keeps-then Holds (check_key py) _ check_key-Keeps (
              Keeps-lift Holds (source_revision py) _ λ revision _.
                Keeps-lift Holds (state_fields py base packages landscape.1 revision) _ λ fields _.
                  Keeps-bind Holds (resolve_arches py base.1 landscape.0 landscape.1 arches) _
                    (resolve_arches-Keeps base.1 landscape.0 landscape.1 arches) λ nested w h. h)

  fetch-Keeps : (r : Registry) (kind reference : Text) → Keeps Holds (fetch py r kind reference)
  unfolding fetch
  fetch-Keeps r kind reference = requests _ _

  open_registry-Keeps :
      (host repository : Text) (username password : Option Text)
      → Keeps Holds (open_registry py host repository username password)
  unfolding open_registry
  open_registry-Keeps host repository username password =
      Keeps-lift Holds (token_service host) _ λ service _.
        Keeps-bind Holds (json_request py _ _) _ (json_request-Keeps _ _)
          λ result. Keeps-lift Holds (token_of result) _ λ token _ w h. h

  manifest-Keeps : (r : Registry) (reference : Json) → Keeps Holds (manifest py r reference)
  unfolding manifest
  manifest-Keeps r reference =
      Keeps-bind Holds (fetch py r (codes "manifests") (formatted py reference)) _
        (fetch-Keeps r _ _)
        λ got.
          Keeps-lift Holds (verify_digest py got.0 (str (named_digest py r got.0 got.1))) _ λ _ _.
            Keeps-lift Holds (verify_reference py r got.0 reference) _
              λ _ _. Keeps-lift Holds (load_json py got.0) _ λ content _ w h. h

  platform_manifest-Keeps :
      (r : Registry) (reference architecture : Text) (found : Json × Text) (is_index : Bool)
      → Keeps Holds (platform_manifest py r reference architecture found is_index)
  unfolding platform_manifest
  platform_manifest-Keeps r reference architecture found true =
      Keeps-lift Holds (select_entry architecture found.0) _ λ digest _. manifest-Keeps r digest
  platform_manifest-Keeps r reference architecture found false = λ w h. h

  platform_config-Keeps :
      (r : Registry) (reference architecture : Text)
      → Keeps Holds (platform_config py r reference architecture)
  unfolding platform_config
  platform_config-Keeps r reference architecture =
      Keeps-bind Holds (manifest py r (str reference)) _ (manifest-Keeps r (str reference)) λ found.
        Keeps-lift Holds (has_key (codes "manifests") found.0) _ λ is_index _.
          Keeps-bind Holds (platform_manifest py r reference architecture found is_index) _
            (platform_manifest-Keeps r reference architecture found is_index)
            λ chosen. Keeps-lift Holds (index chosen.0 (codes "config")) _ λ entry _.
              Keeps-lift Holds (index entry (codes "digest")) _ λ digest _.
                Keeps-bind Holds (fetch py r (codes "blobs") (formatted py digest)) _
                  (fetch-Keeps r _ _)
                  λ got. Keeps-lift Holds (verify_digest py got.0 digest) _ λ _ _.
                    Keeps-lift Holds (load_json py got.0) _ λ config _.
                      Keeps-lift Holds (is_config_for architecture config) _
                        λ fits _. Keeps-lift Holds (require fits wrong_platform) _ λ _ _ w h. h

  compare_published-Keeps :
      (args : Args) (repository : Text) (state : Json)
      → Keeps Holds (compare_published py args repository state)
  unfolding compare_published amd64
  compare_published-Keeps args repository state =
      Keeps-bind Holds (open_registry py (codes "ghcr.io") repository _ _) _
        (open_registry-Keeps (codes "ghcr.io") repository _ _)
        λ registry.
          Keeps-bind Holds (platform_config py registry (codes "latest") (codes "amd64")) _
            (platform_config-Keeps registry (codes "latest") (codes "amd64")) λ config w h. h

  settle-Keeps : (args : Args) (r : Result Bool × World) → Holds r.1 → Holds (settle args r).1
  unfolding settle
  settle-Keeps args (ok build, w) h = h
  settle-Keeps args (raise e, w) h = elim (Bool-cases (is_first_publication args e)) [
    | inl q ↦ rw q (kept.after_printed _ w.log h)
    | inr q ↦ rw q h
  ]

  pub decide_build-Keeps : (args : Args) (state : Json) → Keeps Holds (decide_build py args state)
  unfolding decide_build
  decide_build-Keeps args state w h =
      elim (Bool-cases (starts_with args.image (codes "ghcr.io/"))) [
        | inl q ↦ rw q (
            settle-Keeps args _ (
              compare_published-Keeps args (remove_prefix (codes "ghcr.io/") args.image) state w h))
        | inr q ↦ rw q h
      ]
