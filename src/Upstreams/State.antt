-- ===== src/Upstreams/State.antt =====
-- `inputs_digest`, `same_inputs`, `install_inputs` and `flatten_outputs` of scripts/upstreams.py: what
-- the resolved state decides and what it is turned into. The state is a dict of texts, with a nested
-- dict at `arches`.
pub mod Signals
pub mod Install
use landscape_openwrt.Base.{
  Bool, true, false, not, ◌||◌, Option, none, some, List, [], ◌∷◌, ◌++◌, if◌then◌else◌, Text, codes,
  ◌==◌, starts_with, Result, ok, raise, each, ◌>>=◌,
}
use landscape_openwrt.Base.Dict
use landscape_openwrt.Base.Dict.{Dict}
use landscape_openwrt.Json.{Json, str, index, get, items, obj, of_dict, as_text}
use landscape_openwrt.Platform.{Platform}
use landscape_openwrt.Upstreams.Digest.{digest_of}
use landscape_openwrt.Upstreams.Version.{text_at}
use landscape_openwrt.Upstreams.Registry.{is_text}

-- The monitored signals.
abbrev pub signals : List Text
signals =
    codes "immortalwrt_version"
    ∷ codes "immortalwrt_commit"
    ∷ codes "passwall_release"
    ∷ codes "handler_version"
    ∷ codes "source_revision"
    ∷ []

-- `{key: state[key] for key in keys}`, with keys that differ.
unfoldable pub select_keys : Json → List Text → Result (Dict Json)
select_keys state [] = ok []
select_keys state (key ∷ keys) =
    let rest = select_keys state keys in
    do value ← index state key; others ← rest; ok ((key, value) ∷ others)

module _ (py : Platform) where
  unfoldable pub inputs_digest : Json → Result Text
  inputs_digest state = do
    base ← select_keys state signals
    ok (digest_of py (py.encode (py.dumps_sorted base)))

abbrev pub digest_label : Text
digest_label = codes "dev.landscape.inputs.digest"

abbrev pub digest_key : Text
digest_key = codes "inputs_digest"

-- `labels.get("dev.landscape.inputs.digest") == state["inputs_digest"]`
unfoldable pub same_inputs : Json → Json → Result Bool
same_inputs labels state = do
  label ← get labels digest_label
  digest ← text_at digest_key state
  ok (is_text label digest)

-- The keys of the state that the install layer depends on.
abbrev pub is_install_key : Text → Bool
is_install_key key = starts_with key (codes "passwall_") || starts_with key (codes "dependency_key")

abbrev pub feed_url_key : Text
feed_url_key = codes "dependency_feed_url"

abbrev pub feed_sha_key : Text
feed_sha_key = codes "dependency_feed_sha256"

abbrev pub arches_key : Text
arches_key = codes "arches"

unfoldable pub install_inputs : Json → Text → Result (Dict Json)
unfolding Dict.restrict Dict.insert
install_inputs state arch = do
  fields ← items state
  nested ← index state arches_key
  inputs ← index nested arch
  url ← index inputs feed_url_key
  sum ← index inputs feed_sha_key
  ok (
      Dict.insert feed_sha_key sum
        (Dict.insert feed_url_key url (Dict.restrict is_install_key fields)))

-- `f"{key}_{arch}"`
abbrev pub arch_key : Text → Text → Text
arch_key key arch = key ++ (codes "_" ++ arch)

-- The inner loop, over the inputs of one architecture.
unfoldable pub add_arch : Text → Dict Json → Dict Json → Dict Json
unfolding Dict.insert
add_arch arch [] outputs = outputs
add_arch arch ((key, value) ∷ meta) outputs =
    add_arch arch meta (Dict.insert (arch_key key arch) value outputs)

-- The outer loop, over the architectures.
unfoldable pub add_arches : Dict Json → Dict Json → Result (Dict Json)
unfolding add_arch
add_arches [] outputs = ok outputs
add_arches ((arch, inputs) ∷ more) outputs = do
  meta ← items inputs
  add_arches more (add_arch arch meta outputs)

unfoldable pub flatten_outputs : Json → Result (Dict Json)
unfolding add_arches Dict.restrict
flatten_outputs state = do
  fields ← items state
  nested ← index state arches_key
  meta ← items nested
  add_arches meta (Dict.restrict (λ key. not (key == arches_key)) fields)
