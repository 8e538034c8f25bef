-- ===== src/Management.antt =====
-- scripts/test-management.py: the sockets of the management services. The HTTP client and the
-- connections are parameters.
pub mod Reachable
use landscape_openwrt.Base.{
  ℕ, Bool, true, false, not, ◌||◌, List, [], ◌∷◌, ◌++◌, eqb, if◌then◌else◌, Text, codes, split_on,
  starts_with, is_inside, assert, Result, ok,
}
use landscape_openwrt.Action.{pure, lift, ◌>>=◌, ◌>>◌}
use landscape_openwrt.Script.{Log, Script, Machine, note, printed, opened, reached, int}

-- What the script calls: the status of a URL, the first bytes that a port sends, and whether a port
-- takes a connection.
pub record Network : Type 0 where
  pub status : Log → Text → Result ℕ
  pub banner : Log → Text → ℕ → Result Text
  pub is_open : Log → Text → ℕ → Bool

abbrev pub authority_of : Text → Text
authority_of host = if is_inside (codes ":") host then codes "[" ++ (host ++ codes "]") else host

abbrev pub default_ports : List ℕ
default_ports = 22 ∷ 80 ∷ 443 ∷ 8000 ∷ 8443 ∷ 2222 ∷ []

module _ (net : Network) where
  unfoldable pub check_status : Text → Script (Unit {0})
  check_status url = do
    note (opened url [])
    status ← (λ log. lift (net.status log url) log)
    lift (assert (eqb status 200) [])

  abbrev pub refuse : Text → ℕ → Script (Unit {0})
  refuse host port log =
      (assert (not (net.is_open log host port)) (codes "Unexpected listener"), log)

  -- A port that is not used must not take a connection.
  unfoldable pub check_closed : Text → ℕ → Script (Unit {0})
  check_closed host port = do note (reached host port); refuse host port

module _ (m : Machine) (net : Network) (http https ssh : ℕ) where
  abbrev pub is_used : ℕ → Bool
  is_used port = eqb port http || eqb port https || eqb port ssh

  abbrev pub url_of : Text → Text → ℕ → Text
  url_of scheme host port =
      scheme ++ (codes "://" ++ (authority_of host ++ (codes ":" ++ (m.show port ++ codes "/"))))

  unfoldable pub check_banner : Text → Script (Unit {0})
  check_banner host = do
    note (reached host ssh)
    text ← (λ log. lift (net.banner log host ssh) log)
    lift (assert (starts_with text (codes "SSH-2.0-")) (codes "Missing SSH protocol banner"))

  -- The ports of the set that are not used, in the order of the list.
  unfoldable pub check_unused : Text → List ℕ → Script (Unit {0})
  check_unused host [] = pure tt
  check_unused host (port ∷ more) =
      let rest = check_unused host more in
      if is_used port then rest else (do check_closed net host port; rest)

  unfoldable pub check_host : Text → Script (Unit {0})
  check_host host = do
    check_status net (url_of (codes "http") host http)
    check_status net (url_of (codes "https") host https)
    check_banner host
    check_unused host default_ports
    note (
        printed
          (codes "PASS: " ++ (host ++ codes " native HTTP/HTTPS/SSH; unused defaults closed")))

  unfoldable pub check_hosts : List Text → Script (Unit {0})
  check_hosts [] = pure tt
  check_hosts (host ∷ more) = do check_host host; check_hosts more

-- The run, with the arguments of the command line.
unfoldable pub run : Machine → Network → Text → Text → Text → Text → Script (Unit {0})
run m net hosts http https ssh = do
  http_port ← lift (int m http)
  https_port ← lift (int m https)
  ssh_port ← lift (int m ssh)
  check_hosts m net http_port https_port ssh_port (split_on (λ c. eqb c b',') hosts)
