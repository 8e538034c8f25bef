-- ===== src/Compose/Checked.antt =====
-- What holds of every case that passes.
use landscape_openwrt.Base.{
  assert-same, ◌≡◌, ap, ◌∙◌, some, List, [], ◌∷◌, arith, All, assert, Text, Bytes, codes, ◌==◌,
  splitlines, ok,
}
use landscape_openwrt.Base.{>>=-eq-ok as bind-eq-ok}
use landscape_openwrt.Base.Dict.{Dict}
use landscape_openwrt.Json.{Json}
use landscape_openwrt.Ip.{Ip}
use landscape_openwrt.Platform.{Platform}
use landscape_openwrt.Compose.{service_of}
use landscape_openwrt.Compose.Network.{ipv4, ipv6}
use landscape_openwrt.Compose.Volumes.{resolved_at}
use landscape_openwrt.Compose.Safe.{IsSafe}
use landscape_openwrt.Compose.Accepted.{IsUnpublished, AreSeparate, validate_config-eq-ok}
use landscape_openwrt.Compose.Cases.{
  Docker, override, load, kept_environment, resolved_of, check_case, check_cases,
}

module _ {Net Addr : Type 0} (py : Platform) (docker : Docker) (environ : Dict Text)
    (ip : Ip Net Addr) (source : Text) where
  -- For the example with the overrides put in, Compose resolves the password that was put in, and a
  -- configuration that publishes no port, keeps two different volumes and has safe networks.
  pub data IsAccepted (overrides : Dict Text) : Type 0 where
    accepted :
        (file : Text) (bytes : Bytes) (config : Json) (output password : Text) (service : Json)
        → override overrides source ≡ ok file
        → docker.config file (kept_environment py docker environ file) ≡ ok bytes
        → py.loads bytes ≡ some config
        → docker.environment file (kept_environment py docker environ file) ≡ ok output
        → resolved_at (resolved_of [] (splitlines output)) (codes "LAND_ROOT_PASSWORD")
          ≡ ok password
        → resolved_at overrides (codes "LAND_ROOT_PASSWORD") ≡ ok password
        → service_of config ≡ ok service
        → IsUnpublished service
        → AreSeparate config (resolved_of [] (splitlines output))
        → IsSafe ip ipv4 config (resolved_of [] (splitlines output))
        → IsSafe ip ipv6 config (resolved_of [] (splitlines output))
        → IsAccepted overrides

  load-eq-ok :
      (bytes : Bytes) (config : Json)
      → load py docker environ bytes ≡ ok config
      → py.loads bytes ≡ some config
  load-eq-ok bytes config h = ground arith

  check_case-IsAccepted :
      (overrides : Dict Text)
      → check_case py docker environ ip source overrides ≡ ok tt
      → IsAccepted overrides
  unfolding check_case
  check_case-IsAccepted overrides h =
      let (file, e1, h1) = bind-eq-ok (override overrides source) _ h in
      let (bytes, e2, h2) =
        bind-eq-ok (docker.config file (kept_environment py docker environ file)) _ h1 in
      let (config, e3, h3) = bind-eq-ok (load py docker environ bytes) _ h2 in
      let (output, e4, h4) =
        bind-eq-ok (docker.environment file (kept_environment py docker environ file)) _ h3 in
      let resolved = resolved_of [] (splitlines output) in
      let (found, e5, h5) = bind-eq-ok (resolved_at resolved (codes "LAND_ROOT_PASSWORD")) _ h4 in
      let (wanted, e6, h6) = bind-eq-ok (resolved_at overrides (codes "LAND_ROOT_PASSWORD")) _ h5 in
      let (_, e7, h7) =
        bind-eq-ok (assert (found == wanted) (codes "password interpolation mismatch")) _ h6 in
      let same = assert-same found wanted (codes "password interpolation mismatch") e7 in
      let ((service, e8, unpublished), separate, safe4, safe6) =
        validate_config-eq-ok py ip config resolved h7 in
      accepted file bytes config output wanted service e1 e2 (load-eq-ok bytes config e3) e4
        (e5 ∙ ap ok same) e6 e8 unpublished separate safe4 safe6

  -- If the run over a list of cases passes, then for each of them Compose resolves the password that
  -- was put in, and a configuration that publishes no port of the service, names two different volumes
  -- and has a safe network for both versions of IP.
  pub check_cases-AreAccepted :
      (list : List (Dict Text))
      → check_cases py docker environ ip source list ≡ ok tt
      → All IsAccepted list
  unfolding check_cases
  check_cases-AreAccepted [] h = tt
  check_cases-AreAccepted (overrides ∷ more) h =
      let (_, e, q) = bind-eq-ok (check_case py docker environ ip source overrides) _ h in
      (check_case-IsAccepted overrides e, check_cases-AreAccepted more q)
