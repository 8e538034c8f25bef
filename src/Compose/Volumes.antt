-- ===== src/Compose/Volumes.antt =====
-- The mounts and volumes of `validate_config` of scripts/test-compose.py.
use landscape_openwrt.Base.{
  assert, Bool, true, false, not, List, [], ◌∷◌, none, some, if◌then◌else◌, Text, codes, ◌==◌,
  Result, ok, raise, key_error, ◌>>=◌, ◌>>◌,
}
use landscape_openwrt.Base.Dict
use landscape_openwrt.Base.Dict.{Dict}
use landscape_openwrt.Json.{Json, bool, obj, end, index, elements, truthy, found_or}
use landscape_openwrt.Upstreams.Version.{text_at}
use landscape_openwrt.Upstreams.Release.{get_or}
use landscape_openwrt.Upstreams.Registry.{is_text}

-- `resolved[key]`
unfoldable pub resolved_at : Dict Text → Text → Result Text
unfolding Dict.lookup
resolved_at resolved key = elim (Dict.lookup key resolved) [
  | some s ↦ ok s
  | none ↦ raise (key_error key)
]

abbrev pub is_bool : Bool → Json → Bool
is_bool b (bool c) = if b then c else not c
is_bool b j = false

-- `{mount['target']: mount for mount in …}`, for targets that are texts.
unfoldable pub mounts_from : Dict Json → List Json → Result (Dict Json)
unfolding Dict.insert
mounts_from found [] = ok found
mounts_from found (mount ∷ more) = do
  target ← text_at (codes "target") mount
  mounts_from (Dict.insert target mount found) more

unfoldable pub mounts_of : Json → Result (Dict Json)
mounts_of service = do
  volumes ← index service (codes "volumes")
  listed ← elements volumes
  mounts_from [] listed

-- `mounts[target]`
abbrev pub mount_at : Dict Json → Text → Result Json
mount_at mounts target = found_or target (Dict.lookup target mounts)

-- `value[key] == text`
abbrev pub field_is : Json → Text → Text → Result Bool
field_is value key text = do found ← index value key; ok (is_text (some found) text)

-- `test and rest`, where the rest may raise.
abbrev pub and_then : Bool → Result Bool → Result Bool
and_then true rest = rest
and_then false rest = ok false

unfoldable pub check_socket : Dict Json → Dict Text → Result (Unit {0})
check_socket mounts resolved = do
  socket ← mount_at mounts (codes "/ld_unix_link")
  bound ← field_is socket (codes "type") (codes "bind")
  fixed ← and_then bound (do found ← index socket (codes "read_only"); ok (is_bool true found))
  assert fixed []
  source ← index socket (codes "source")
  wanted ← resolved_at resolved (codes "LANDSCAPE_SOCKET_DIR")
  assert (is_text (some source) wanted) (codes "socket path interpolation mismatch")
  options ← get_or socket (codes "bind") (obj end)
  create ← get_or options (codes "create_host_path") (bool false)
  assert (is_bool false create) (codes "the Landscape socket directory must already exist")

-- One volume: its name in the configuration is the resolved one and not empty, and it is mounted at
-- its target.
unfoldable pub check_volume : Json → Dict Json → Dict Text → Text → Text → Text → Result Text
check_volume config mounts resolved volume key target = do
  volumes ← index config (codes "volumes")
  declared ← index volumes volume
  name ← index declared (codes "name")
  assert (truthy name) (codes "interpolation mismatch")
  wanted ← resolved_at resolved key
  assert (is_text (some name) wanted) (codes "interpolation mismatch")
  mount ← mount_at mounts target
  typed ← field_is mount (codes "type") (codes "volume")
  sourced ← and_then typed (field_is mount (codes "source") volume)
  assert sourced []
  ok wanted

unfoldable pub check_volumes : Json → Dict Json → Dict Text → Result (Unit {0})
check_volumes config mounts resolved = do
  first ←
      check_volume config mounts resolved (codes "landscape-openwrt-config")
        (codes "CONFIG_VOLUME_NAME") (codes "/etc/config")
  second ←
      check_volume config mounts resolved (codes "landscape-openwrt-dropbear")
        (codes "DROPBEAR_VOLUME_NAME") (codes "/etc/dropbear")
  assert (not (first == second)) (codes "configuration and SSH identity must use separate volumes")
