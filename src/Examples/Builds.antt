-- ===== src/Examples/Builds.antt =====
-- The decision to build, with a registry that answers and one that does not.
use landscape_openwrt.Base.{
  zero, suc, ◌≡◌, refl, [], ◌∷◌, true, false, some, Bytes, Text, codes, ok, ◌==◌, starts_with,
  remove_prefix,
}
use landscape_openwrt.Base.Dict
use landscape_openwrt.Regex.{fullmatch, literal, times}
use landscape_openwrt.Json.{Json, str, obj, end, field, index, get, to_dict, truthy, as_text}
use landscape_openwrt.Platform.{Platform, IsLawful, response}
use landscape_openwrt.Io.{World, start}
use landscape_openwrt.Upstreams.Http.{
  request, attempt_from, handle_answer, open_url, json_request, header,
}
use landscape_openwrt.Upstreams.Digest.{digest_of, verify_digest, or_empty}
use landscape_openwrt.Upstreams.Version.{text_at}
use landscape_openwrt.Upstreams.Release.{get_or}
use landscape_openwrt.Upstreams.Registry.{
  Registry, token_service, token_of, is_text, has_key, is_config_for, open_registry, fetch,
  verify_reference, manifest, platform_manifest, platform_config, amd64,
}
use landscape_openwrt.Upstreams.State.{same_inputs, digest_label, digest_key}
use landscape_openwrt.Upstreams.Main.{
  Args, labels_of, build_for, settle, compare_published, decide_build,
}
use landscape_openwrt.Upstreams.Main.Decision.{IsUpToDate, decide_build-false}
use landscape_openwrt.Upstreams.Registry.Laws.{HasDigest, manifest-eq-ok, platform_config-eq-ok}
use landscape_openwrt.Examples.Toy.{toy, toy-IsLawful}

abbrev args : Args
args = record {
  image = codes "ghcr.io/otaku-say/landscape-openwrt";
  force = false;
  first_build = false;
}

abbrev state : Json
state = obj (field digest_key (str (codes "same")) end)

-- A registry whose image has the digest of the state.
abbrev documents : Bytes → Json
documents (suc zero ∷ bs) = obj (field (codes "token") (str (codes "t")) end)
documents (suc (suc zero) ∷ bs) =
    obj
      (field (codes "config") (obj (field (codes "digest") (str (digest_of toy (3 ∷ []))) end)) end)
documents bs = obj (
    field (codes "os") (str (codes "linux")) (
      field (codes "architecture") (str (codes "amd64")) (
        field (codes "config")
          (obj (field (codes "Labels") (obj (field digest_label (str (codes "same")) end)) end))
          end)))

abbrev served : Platform
served = record toy {
  loads = λ b. some (documents b);
  urlopen = λ n url hs. response (suc n ∷ []) [];
}

abbrev compared : World
compared = (decide_build served args state start).1

up_to_date : decide_build served args state start ≡ (ok false, compared)
unfolding decide_build settle compare_published open_registry token_service json_request request
    attempt_from open_url handle_answer token_of get_or amd64 platform_config manifest fetch header
    verify_digest verify_reference digest_of has_key platform_manifest is_config_for build_for
    labels_of same_inputs starts_with remove_prefix fullmatch literal times or_empty truthy as_text
    index get to_dict Dict.lookup ◌==◌ is_text text_at
up_to_date = refl

decide_build-false_example : IsUpToDate served args state start compared
decide_build-false_example = decide_build-false served args state start compared up_to_date

served-IsLawful : IsLawful served
served-IsLawful = record {
  digest_length = toy-IsLawful.digest_length;
  digest_hex = toy-IsLawful.digest_hex;
  ascii_decimal = toy-IsLawful.ascii_decimal;
  random_lt = toy-IsLawful.random_lt;
}

abbrev ghcr : Registry
ghcr = record {
  host = codes "ghcr.io";
  repository = codes "otaku-say/landscape-openwrt";
  headers = [];
}

-- The run behind the request for a token.
abbrev authorized : World
authorized = record start { calls = 1 }

abbrev configured : World
configured = (platform_config served ghcr (codes "latest") (codes "amd64") authorized).1

abbrev image_digest : Text
image_digest = digest_of toy (2 ∷ [])

image_read :
    platform_config served ghcr (codes "latest") (codes "amd64") authorized
    ≡ (ok (image_digest, documents (3 ∷ [])), configured)
unfolding request attempt_from open_url handle_answer platform_config manifest fetch header
    verify_digest verify_reference digest_of has_key platform_manifest is_config_for starts_with
    fullmatch literal times or_empty truthy as_text index get to_dict Dict.lookup ◌==◌ is_text
image_read = refl

abbrev read_content : Json
read_content = documents (2 ∷ [])

manifest_read :
    manifest served ghcr (str (codes "latest")) authorized
    ≡ (ok (read_content, image_digest), (manifest served ghcr (str (codes "latest")) authorized).1)
unfolding request attempt_from open_url handle_answer manifest fetch header verify_digest
    verify_reference digest_of starts_with fullmatch literal times or_empty truthy as_text
    Dict.lookup ◌==◌
manifest_read = refl

manifest-eq-ok_example :
    HasDigest served served-IsLawful ghcr read_content image_digest
    × (starts_with (codes "latest") (codes "sha256:") ≡ true → codes "latest" ≡ image_digest)
manifest-eq-ok_example =
    manifest-eq-ok served served-IsLawful ghcr (codes "latest") authorized
      (manifest served ghcr (str (codes "latest")) authorized).1 read_content image_digest
      manifest_read

platform_config-eq-ok_example :
    (content : Json) × (entry : Json) × (config_digest : Text) × HasDigest served served-IsLawful
      ghcr content image_digest
    × (index content (codes "config") ≡ ok entry)
    × (index entry (codes "digest") ≡ ok (str config_digest))
    × HasDigest served served-IsLawful ghcr (documents (3 ∷ [])) config_digest
    × (is_config_for (codes "amd64") (documents (3 ∷ [])) ≡ ok true)
platform_config-eq-ok_example =
    platform_config-eq-ok served served-IsLawful ghcr (codes "latest") (codes "amd64") authorized
      configured image_digest (documents (3 ∷ [])) image_read
