-- ===== src/Compose/Accepted.antt =====
-- What a configuration has that `validate_config` accepts.
use landscape_openwrt.Ip.{Ip}
use landscape_openwrt.Base.{
  assert-true, ◌≡◌, ap, ◌∙◌, false, not, ◌&&◌, some, if◌then◌else◌, Text, codes, ◌==◌, Result, ok,
  >>=-eq-ok, ◌>>=◌,
}
use landscape_openwrt.Base.Dict.{Dict}
use landscape_openwrt.Json.{Json, str, index, elements, truthy}
use landscape_openwrt.Platform.{Platform}
use landscape_openwrt.Upstreams.Registry.{has_key, is_text}
use landscape_openwrt.Upstreams.Inputs.Handler.{is_text-eq}
use landscape_openwrt.Compose.{
  service_of, validate_config, check_unpublished, check_escaped, check_log_level, check_defaults,
  defaults, only_edge, edge_of, check_edge,
}
use landscape_openwrt.Compose.Network.{ipv4, ipv6}
use landscape_openwrt.Compose.Volumes.{
  resolved_at, check_volume, check_volumes, check_socket, mounts_of, mount_at, field_is, and_then,
}
use landscape_openwrt.Compose.Asserts.{assert-then, check-then, both_true, eq_false_of_not}
use landscape_openwrt.Compose.Safe.{IsSafe, validate_network-IsSafe}

-- The service publishes no port.
abbrev pub IsUnpublished : Json → Type 0
IsUnpublished service =
    (has_key (codes "ports") service ≡ ok false) × (has_key (codes "expose") service ≡ ok false)

check_unpublished-IsUnpublished :
    (service : Json) → check_unpublished service ≡ ok tt → IsUnpublished service
unfolding check_unpublished
check_unpublished-IsUnpublished service h =
    let (ports, e, h1) = >>=-eq-ok (has_key (codes "ports") service) _ h in
    let (expose, f, h2) =
      >>=-eq-ok (if ports then ok false else has_key (codes "expose") service) _ h1 in
    let (b, _) =
      assert-then (not ports && not expose) (codes "native listeners must not be published") _ h2 in
    let (p, q) = both_true (not ports) (not expose) b in
    let p' = eq_false_of_not ports p in
    let q' = eq_false_of_not expose q in (e ∙ ap ok p', (rw p' at f) ∙ ap ok q')

-- The name that the configuration has for a volume.
abbrev pub volume_name : Text → Json → Result Json
volume_name volume config = do
  volumes ← index config (codes "volumes")
  declared ← index volumes volume
  index declared (codes "name")

volume_name-ok :
    (volume : Text) (config volumes declared found : Json)
    → index config (codes "volumes") ≡ ok volumes
    → index volumes volume ≡ ok declared
    → index declared (codes "name") ≡ ok found
    → volume_name volume config ≡ ok found
volume_name-ok volume config volumes declared found e f g = rw (e, f, g)

-- The two volumes of the configuration have the names of the environment, which differ.
abbrev pub AreSeparate : Json → Dict Text → Type 0
AreSeparate config resolved =
    (first : Text) × (second : Text) × (volume_name (codes "landscape-openwrt-config") config
      ≡ ok (str first))
    × (volume_name (codes "landscape-openwrt-dropbear") config ≡ ok (str second))
    × (resolved_at resolved (codes "CONFIG_VOLUME_NAME") ≡ ok first)
    × (resolved_at resolved (codes "DROPBEAR_VOLUME_NAME") ≡ ok second)
    × ((first == second) ≡ false)

ok-inj : {A : Type 0} (a b : A) → ◌≡◌ {A = Result A} (ok a) (ok b) → a ≡ b
ok-inj a b h = cc

module _ (config : Json) (mounts : Dict Json) (resolved : Dict Text) where
  check_volume-resolved :
      (volume key target name : Text)
      → check_volume config mounts resolved volume key target ≡ ok name
      → (volume_name volume config ≡ ok (str name)) × (resolved_at resolved key ≡ ok name)
  unfolding check_volume
  check_volume-resolved volume key target name h =
      let (volumes, v, h1) = >>=-eq-ok (index config (codes "volumes")) _ h in
      let (declared, d, h2) = >>=-eq-ok (index volumes volume) _ h1 in
      let (found, n, h3) = >>=-eq-ok (index declared (codes "name")) _ h2 in
      let (_, h4) = assert-then (truthy found) _ _ h3 in
      let (wanted, e, h5) = >>=-eq-ok (resolved_at resolved key) _ h4 in
      let (t, h6) = assert-then (is_text (some found) wanted) _ _ h5 in
      let (mount, _, h7) = >>=-eq-ok (mount_at mounts target) _ h6 in
      let (typed, _, h8) = >>=-eq-ok (field_is mount (codes "type") (codes "volume")) _ h7 in
      let (sourced, _, h9) =
        >>=-eq-ok (and_then typed (field_is mount (codes "source") volume)) _ h8 in
      let (_, h10) = assert-then sourced _ _ h9 in
      let written : found ≡ str name =
        is_text-eq found wanted t ∙ ap str (ok-inj wanted name h10) in
      (volume_name-ok volume config volumes declared found v d n ∙ ap ok written, e ∙ h10)

  check_volumes-AreSeparate :
      check_volumes config mounts resolved ≡ ok tt → AreSeparate config resolved
  unfolding check_volumes
  check_volumes-AreSeparate h =
      let (first, e, h1) = >>=-eq-ok (check_volume config mounts resolved _ _ _) _ h in
      let (second, f, h2) = >>=-eq-ok (check_volume config mounts resolved _ _ _) _ h1 in
      let d = assert-true (not (first == second)) _ h2 in
      (
        first,
        second,
        (check_volume-resolved _ _ _ first e).0,
        (check_volume-resolved _ _ _ second f).0,
        (check_volume-resolved _ _ _ first e).1,
        (check_volume-resolved _ _ _ second f).1,
        eq_false_of_not (first == second) d,
      )

module _ {Net Addr : Type 0} (py : Platform) (ip : Ip Net Addr) where
  pub validate_config-eq-ok :
      (config : Json) (resolved : Dict Text)
      → validate_config py ip config resolved ≡ ok tt
      → ((service : Json) × (service_of config ≡ ok service) × IsUnpublished service)
        × AreSeparate config resolved
        × IsSafe ip ipv4 config resolved
        × IsSafe ip ipv6 config resolved
  unfolding validate_config
  validate_config-eq-ok config resolved h =
      let (service, e, h1) = >>=-eq-ok (service_of config) _ h in
      let (_, h2) = check-then (check_escaped service resolved _) _ h1 in
      let (_, h3) = check-then (check_log_level service resolved) _ h2 in
      let (unpublished, h4) = check-then (check_unpublished service) _ h3 in
      let (_, h5) = check-then (check_defaults service resolved defaults) _ h4 in
      let (networks, _, h6) = >>=-eq-ok (index service (codes "networks")) _ h5 in
      let (joined, _, h7) = >>=-eq-ok (elements networks) _ h6 in
      let (_, h8) = assert-then (only_edge joined) _ _ h7 in
      let (edge, _, h9) = >>=-eq-ok (edge_of config) _ h8 in
      let (_, h10) = check-then (check_edge py edge resolved) _ h9 in
      let (mounts, _, h11) = >>=-eq-ok (mounts_of service) _ h10 in
      let (_, h12) = check-then (check_socket mounts resolved) _ h11 in
      let (volumes, network) = check-then (check_volumes config mounts resolved) _ h12 in
      let (v4, v6) = validate_network-IsSafe ip config resolved network in
      (
        (service, e, check_unpublished-IsUnpublished service unpublished),
        check_volumes-AreSeparate config mounts resolved volumes,
        v4,
        v6,
      )
