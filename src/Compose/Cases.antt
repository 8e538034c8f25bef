-- ===== src/Compose/Cases.antt =====
-- `check_case` and `main` of scripts/test-compose.py. What `docker compose config` prints for a file of
-- variables is a parameter.
use landscape_openwrt.Base.{
  ℕ, ◌+◌, Bool, false, not, ◌&&◌, ◌||◌, Option, none, some, List, [], ◌∷◌, ◌++◌, eqb, leb,
  if◌then◌else◌, Text, Bytes, codes, ◌==◌, split_on, join, splitlines, assert, value_error,
  invalid_json, Result, ok, raise, starts_with, is_inside,
}
use landscape_openwrt.Base.{◌>>=◌ as bind}
use landscape_openwrt.Base.Dict
use landscape_openwrt.Base.Dict.{Dict}
use landscape_openwrt.Json.{Json}
use landscape_openwrt.Ip.{Ip}
use landscape_openwrt.Platform.{Platform}
use landscape_openwrt.Compose.{validate_config}
use landscape_openwrt.Compose.Volumes.{resolved_at}

-- What the command prints for a file of variables and an environment of the process: the configuration
-- as JSON, and the environment that it resolved.
pub record Docker : Type 0 where
  pub config : Text → Dict Text → Result Bytes
  pub environment : Text → Dict Text → Result Text

abbrev pub is_newline : ℕ → Bool
is_newline c = eqb c 10

-- The text of a line behind `key=`, if the line is such an assignment.
unfoldable pub is_assignment : Text → Text → Bool
is_assignment key line = starts_with line (key ++ codes "=")

abbrev pub quoted : Text → Text → Text
quoted key value = key ++ (codes "='" ++ (value ++ codes "'"))

-- The lines with each assignment of the key replaced.
unfoldable pub replace_lines : Text → Text → List Text → List Text
replace_lines key value [] = []
replace_lines key value (line ∷ more) =
    (if is_assignment key line then quoted key value else line) ∷ replace_lines key value more

unfoldable pub count_assignments : Text → List Text → ℕ
count_assignments key [] = 0
count_assignments key (line ∷ more) =
    let rest = count_assignments key more in if is_assignment key line then 1 + rest else rest

-- The loop over the overrides, on the lines of the source.
unfoldable pub override_lines : Dict Text → List Text → Result (List Text)
override_lines [] lines = ok lines
override_lines ((key, value) ∷ more) lines =
    bind
      (assert (eqb (count_assignments key lines) 1)
        (codes "expected one assignment in the example"))
      λ _.
        override_lines more (split_on is_newline (join (10 ∷ []) (replace_lines key value lines)))

unfoldable pub override : Dict Text → Text → Result Text
override overrides source =
    bind (override_lines overrides (split_on is_newline source)) λ lines. ok (join (10 ∷ []) lines)

abbrev pub is_upper : ℕ → Bool
is_upper c = leb b'A' c && leb c b'Z'

abbrev pub is_name_character : ℕ → Bool
is_name_character c = is_upper c || (leb b'0' c && leb c b'9') || eqb c b'_'

-- The rest of a variable's name, up to the `=`.
unfoldable pub name_rest : Text → Option Text
name_rest [] = none
name_rest (c ∷ s) =
    let rest = name_rest s in
    if eqb c b'='
    then some []
    else if is_name_character c
    then elim rest [ none ↦ none | some name ↦ some (c ∷ name) ]
    else none

-- The variable that a line assigns.
abbrev pub variable_of : Text → Option Text
variable_of [] = none
variable_of (c ∷ s) =
    if is_upper c then elim (name_rest s) [ none ↦ none | some name ↦ some (c ∷ name) ] else none

abbrev pub with_variable : Option Text → List Text → List Text
with_variable none names = names
with_variable (some name) names = name ∷ names

unfoldable pub variables_of : List Text → List Text
variables_of [] = []
variables_of (line ∷ more) = with_variable (variable_of line) (variables_of more)

unfoldable pub lists_name : Text → List Text → Bool
lists_name name [] = false
lists_name name (other ∷ more) = name == other || lists_name name more

-- `line.split('=', 1)`, for a line with a `=`.
unfoldable pub split_first : Text → Text × Text
split_first [] = ([], [])
split_first (c ∷ s) =
    let (key, value) = split_first s in if eqb c b'=' then ([], s) else (c ∷ key, value)

-- The dict of the assignments that are printed.
unfoldable pub resolved_of : Dict Text → List Text → Dict Text
resolved_of resolved [] = resolved
resolved_of resolved (line ∷ more) =
    resolved_of
      (if is_inside (codes "=") line
        then Dict.insert (split_first line).0 (split_first line).1 resolved
        else resolved)
      more

module _ (py : Platform) (docker : Docker) (environ : Dict Text) where
  abbrev pub load : Bytes → Result Json
  load bytes = elim (py.loads bytes) [
    | some config ↦ ok config
    | none ↦ raise (value_error invalid_json)
  ]

  -- The environment of the process, without the variables of the file.
  abbrev pub kept_environment : Text → Dict Text
  kept_environment source =
      Dict.restrict (λ key. not (lists_name key (variables_of (split_on is_newline source))))
        environ

  module _ {Net Addr : Type 0} (ip : Ip Net Addr) where
    unfoldable pub check_case : Text → Dict Text → Result (Unit {0})
    check_case source overrides = bind (override overrides source) λ file.
        bind (docker.config file (kept_environment file)) λ bytes. bind (load bytes) λ config.
          bind (docker.environment file (kept_environment file)) λ output.
            let resolved = resolved_of [] (splitlines output) in
            bind (resolved_at resolved (codes "LAND_ROOT_PASSWORD")) λ found.
              bind (resolved_at overrides (codes "LAND_ROOT_PASSWORD")) λ wanted.
                bind (assert (found == wanted) (codes "password interpolation mismatch"))
                  λ _. validate_config py ip config resolved

    unfoldable pub check_cases : Text → List (Dict Text) → Result (Unit {0})
    check_cases source [] = ok tt
    check_cases source (overrides ∷ more) =
        bind (check_case source overrides) λ _. check_cases source more

-- The overrides that set every port to nothing.
abbrev pub no_ports : Dict Text
no_ports =
    (codes "LUCI_HTTP_PORT", []) ∷ (codes "LUCI_HTTPS_PORT", []) ∷ (codes "SSH_PORT", []) ∷ []

abbrev pub password_case : Text → Dict Text
password_case password = (codes "LAND_ROOT_PASSWORD", password) ∷ []

abbrev pub level_case : Text → Dict Text
level_case level =
    (codes "LAND_ROOT_PASSWORD", codes "test-only") ∷ (codes "LAND_REDIRECT_LOG_LEVEL", level) ∷ []

-- The case of the network number `index`, a digit.
abbrev pub network_case : Text → Text → Text → Dict Text
network_case index prefix dns =
    (codes "LAND_ROOT_PASSWORD", codes "test$with# spaces")
    ∷ (codes "EDGE_IPV4_SUBNET", prefix ++ codes ".0/24")
    ∷ (codes "EDGE_IPV4_GATEWAY", prefix ++ codes ".1")
    ∷ (codes "EDGE_IPV4_ADDRESS", prefix ++ codes ".2")
    ∷ (codes "EDGE_IPV6_SUBNET", codes "fd66:" ++ (index ++ codes "::/64"))
    ∷ (codes "EDGE_IPV6_GATEWAY", codes "fd66:" ++ (index ++ codes "::1"))
    ∷ (codes "EDGE_IPV6_ADDRESS", codes "fd66:" ++ (index ++ codes "::2"))
    ∷ (codes "EDGE_MAC_ADDRESS", codes "02:AA:BB:CC:DD:0" ++ index)
    ∷ (codes "EDGE_BRIDGE_NAME", codes "br-ci-" ++ index)
    ∷ (codes "EDGE_NETWORK_NAME", codes "ci-network-" ++ index)
    ∷ (codes "CONFIG_VOLUME_NAME", codes "ci-config-" ++ index)
    ∷ (codes "DROPBEAR_VOLUME_NAME", codes "ci-dropbear-" ++ index)
    ∷ (codes "LANDSCAPE_SOCKET_DIR", codes "/tmp/landscape-ci/unix_link")
    ∷ (codes "TZ", codes "Etc/UTC")
    ∷ (codes "LAND_DNS_ADDR", dns)
    ∷ (codes "LUCI_HTTP_PORT", codes "18080")
    ∷ (codes "LUCI_HTTPS_PORT", codes "18443")
    ∷ (codes "SSH_PORT", codes "12222")
    ∷ []

abbrev pub cases : List (Dict Text)
cases =
    password_case (codes "1")
    ∷ password_case (codes "123")
    ∷ password_case (codes "simple")
    ∷ password_case (codes "value$with# spaces")
    ∷ ((codes "LAND_ROOT_PASSWORD", codes "test-only") ∷ no_ports)
    ∷ level_case []
    ∷ level_case (codes "OFF")
    ∷ level_case (codes "ERROR")
    ∷ level_case (codes "WARN")
    ∷ level_case (codes "INFO")
    ∷ level_case (codes "DEBUG")
    ∷ level_case (codes "TRACE")
    ∷ network_case (codes "1") (codes "10.66.66") (codes "8.8.8.8,1.1.1.1")
    ∷ network_case (codes "2") (codes "172.30.66") (codes "8.8.8.8,2606:4700:4700::1111")
    ∷ network_case (codes "3") (codes "192.168.66")
        (codes "2606:4700:4700::1111,2001:4860:4860::8888")
    ∷ []

abbrev pub placeholder : Text
placeholder = codes "LAND_ROOT_PASSWORD='CHANGE_ME_BEFORE_START'"

-- The run on the text of the example file.
unfoldable pub main :
    {Net Addr : Type 0} → Platform → Docker → Dict Text → Ip Net Addr → Text → Result (Unit {0})
main py docker environ ip source =
    bind
      (assert (lists_name placeholder (split_on is_newline source))
        (codes "keep the example password placeholder"))
      λ _. check_cases py docker environ ip source cases
