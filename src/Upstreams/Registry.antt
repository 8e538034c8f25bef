-- ===== src/Upstreams/Registry.antt =====
-- The class `Registry` of scripts/upstreams.py.
pub mod Laws
use landscape_openwrt.Base.{
  is_inside, ℕ, Bool, true, false, not, ◌&&◌, ◌||◌, Option, none, some, List, [], ◌∷◌, ◌++◌,
  if◌then◌else◌, Text, Bytes, codes, ◌==◌, starts_with, Headers, Result, ok, raise, value_error,
  type_error, attribute_error, unsupported_registry, not_one_manifest, wrong_platform, require,
  keep,
}
use landscape_openwrt.Base.{◌>>=◌ as bind}
use landscape_openwrt.Base.Dict
use landscape_openwrt.Json.{
  Json, Items, Fields, null, bool, num, str, arr, obj, end, get, index, elements, as_text, truthy,
  to_list,
}
use landscape_openwrt.Platform.{Platform}
use landscape_openwrt.Io.{Io, World, pure, lift, ◌>>=◌, ◌>>◌}
use landscape_openwrt.Upstreams.Http.{request, json_request, load_json, header}
use landscape_openwrt.Upstreams.Digest.{digest_of, verify_digest}
use landscape_openwrt.Upstreams.Release.{get_or}

pub record Registry : Type 0 where
  pub host : Text
  pub repository : Text
  pub headers : Headers

-- The media types of `ACCEPT`.
abbrev pub accept : Text
accept =
    codes
      "application/vnd.oci.image.index.v1+json, application/vnd.docker.distribution.manifest.list.v2+json, application/vnd.oci.image.manifest.v1+json, application/vnd.docker.distribution.manifest.v2+json"

-- The token service of a host, with the name of its service.
unfoldable pub token_service : Text → Result (Text × Text)
token_service host =
    if host == codes "registry-1.docker.io"
    then ok (codes "https://auth.docker.io/token", codes "registry.docker.io")
    else if host == codes "ghcr.io"
    then ok (codes "https://ghcr.io/token", codes "ghcr.io")
    else raise (value_error unsupported_registry)

-- `value == text`, for what `value.get(key)` returns.
unfoldable pub is_text : Option Json → Text → Bool
is_text (some (str s)) t = s == t
is_text _ t = false

-- `text in some_list`
unfoldable pub lists_text : Text → List Json → Bool
unfolding is_text
lists_text t [] = false
lists_text t (j ∷ js) = is_text (some j) t || lists_text t js

-- `key in value`
unfoldable pub has_key : Text → Json → Result Bool
unfolding lists_text is_inside
has_key key (obj fields) =
    bind (get (obj fields) key) (λ found. ok (elim found [ some v ↦ true | none ↦ false ]))
has_key key (arr items) = ok (lists_text key (to_list items))
has_key key (str s) = ok (is_inside key s)
has_key key _ = raise type_error

-- Whether an entry of an index is for Linux on this architecture.
unfoldable pub is_for : Text → Json → Result Bool
unfolding get_or is_text
is_for architecture entry = bind (get_or entry (codes "platform") (obj end)) λ platform.
    bind (get platform (codes "os")) λ os.
      bind (get platform (codes "architecture"))
        λ arch. ok (is_text os (codes "linux") && is_text arch architecture)

-- The digest of the only entry.
unfoldable pub only_entry : List Json → Result Json
only_entry (entry ∷ []) = index entry (codes "digest")
only_entry _ = raise (value_error not_one_manifest)

unfoldable pub select_entry : Text → Json → Result Json
select_entry architecture manifest =
    bind (index manifest (codes "manifests")) λ listed.
      bind (elements listed) λ entries. bind (keep (is_for architecture) entries) only_entry

-- The test of the image configuration.
unfoldable pub is_config_for : Text → Json → Result Bool
unfolding is_text
is_config_for architecture config = bind (get config (codes "os")) λ os.
    bind (get config (codes "architecture"))
      λ arch. ok (is_text os (codes "linux") && is_text arch architecture)

-- `result.get("token") or result["access_token"]`
unfoldable pub token_of : Json → Result Text
unfolding get_or
token_of result =
    bind (get_or result (codes "token") null)
      λ token. bind (if truthy token then ok token else index result (codes "access_token")) as_text

module _ (py : Platform) where
  -- `f"{value}"`
  abbrev pub formatted : Json → Text
  formatted (str text) = text
  formatted value = py.format value

  -- The `Authorization` of the token request, if there are a user name and a password.
  unfoldable pub basic_auth : Option Text → Option Text → Headers
  basic_auth (some (u ∷ us)) (some (p ∷ ps)) =
      (
        codes "Authorization",
        codes "Basic " ++ py.b64encode (py.encode ((u ∷ us) ++ (codes ":" ++ (p ∷ ps)))),
      )
      ∷ []
  basic_auth username password = []

  -- `Registry.__init__`
  unfoldable pub open_registry : Text → Text → Option Text → Option Text → Io Registry
  open_registry host repository username password = do
    service ← lift (token_service host)
    result ←
        json_request py
          (service.0
            ++ (codes "?"
                ++ py.urlencode (
                    (codes "service", service.1)
                    ∷ (codes "scope", codes "repository:" ++ (repository ++ codes ":pull"))
                    ∷ [])))
          (basic_auth username password)
    token ← lift (token_of result)
    pure (record {
      host = host;
      repository = repository;
      headers = (codes "Authorization", codes "Bearer " ++ token) ∷ [];
    })

  module _ (r : Registry) where
    unfoldable pub fetch : Text → Text → Io (Bytes × Headers)
    fetch kind reference =
        request py
          (codes "https://"
            ++ (r.host
                ++ (codes "/v2/"
                    ++ (r.repository ++ (codes "/" ++ (kind ++ (codes "/" ++ reference)))))))
          (Dict.insert (codes "Accept") accept r.headers)

    -- The digest that the registry names, or else that of the content.
    abbrev pub named_digest : Bytes → Headers → Text
    named_digest raw headers = elim (header (codes "Docker-Content-Digest") headers) [
      | some digest ↦ digest
      | none ↦ digest_of py raw
    ]

    -- The second test, for a reference that is a digest itself.
    unfoldable pub verify_reference : Bytes → Json → Result (Unit {0})
    verify_reference raw (str reference) =
        if starts_with reference (codes "sha256:")
        then verify_digest py raw (str reference)
        else ok tt
    verify_reference raw reference = raise attribute_error

    -- A reference that is no text is asked for as it is formatted, and refused behind the request.
    unfoldable pub manifest : Json → Io (Json × Text)
    manifest reference = do
      (raw, headers) ← fetch (codes "manifests") (formatted reference)
      lift (verify_digest py raw (str (named_digest raw headers)))
      lift (verify_reference raw reference)
      content ← lift (load_json py raw)
      pure (content, named_digest raw headers)

    -- The manifest of one platform: of an index the entry for Linux on this architecture.
    unfoldable pub platform_manifest : Text → Text → Json × Text → Bool → Io (Json × Text)
    platform_manifest reference architecture found true = do
      digest ← lift (select_entry architecture found.0)
      manifest digest
    platform_manifest reference architecture found false = pure found

    unfoldable pub platform_config : Text → Text → Io (Text × Json)
    platform_config reference architecture = do
      found ← manifest (str reference)
      is_index ← lift (has_key (codes "manifests") found.0)
      chosen ← platform_manifest reference architecture found is_index
      config_entry ← lift (index chosen.0 (codes "config"))
      config_digest ← lift (index config_entry (codes "digest"))
      (raw, _) ← fetch (codes "blobs") (formatted config_digest)
      lift (verify_digest py raw config_digest)
      config ← lift (load_json py raw)
      fits ← lift (is_config_for architecture config)
      lift (require fits wrong_platform)
      pure (chosen.1, config)

    -- `Registry.amd64`
    unfoldable pub amd64 : Text → Io (Text × Json)
    amd64 reference = platform_config reference (codes "amd64")
