-- ===== src/Management/Reachable.antt =====
-- What a host has that passes the test of its sockets.
use landscape_openwrt.Base.{
  assert-true, assert-false, ℕ, ◌≡◌, ap, ◌∙◌, Bool, true, false, List, [], ◌∷◌, All, assert, eqb,
  eqb_iff, split_on, starts_with, Text, codes, ok,
}
use landscape_openwrt.Action.{lift}
use landscape_openwrt.Action.Laws.{
  lift-eq-ok, Ensures, Ensures-bind, Ensures-then, Ensures-lift, Ensures-pure, Ensures-cases,
}
use landscape_openwrt.Script.{Log, Machine, note, opened, reached, int}
use landscape_openwrt.Management.{
  Network, default_ports, is_used, url_of, check_status, check_banner, check_closed, refuse,
  check_unused, check_host, check_hosts, run,
}

true_is_false : {b : Bool} → b ≡ true → b ≡ false → ⊥
true_is_false e f = cc

module _ (m : Machine) (net : Network) (http https ssh : ℕ) where
  -- A URL that was answered with 200.
  abbrev pub Serves : Text → Unit {0} → Type 0
  Serves url _ = (log : Log) × (net.status log url ≡ ok 200)

  abbrev pub HasBanner : Text → Unit {0} → Type 0
  HasBanner host _ =
      (log : Log) × (text : Text) × (net.banner log host ssh ≡ ok text)
      × (starts_with text (codes "SSH-2.0-") ≡ true)

  -- A port that is not used took no connection.
  abbrev pub IsClosed : Text → ℕ → Type 0
  IsClosed host port =
      is_used m net http https ssh port ≡ false → (log : Log) × (net.is_open log host port ≡ false)

  abbrev pub IsReachable : Text → Type 0
  IsReachable host =
      Serves (url_of m net http https ssh (codes "http") host http) tt
      × Serves (url_of m net http https ssh (codes "https") host https) tt
      × HasBanner host tt
      × All (IsClosed host) default_ports

  check_status-Serves : (url : Text) → Ensures (Serves url) (check_status net url)
  unfolding check_status
  check_status-Serves url =
      let P = Serves url in
      Ensures-then P (note (opened url [])) _ (
        Ensures-bind P (λ log. lift (net.status log url) log) _
          λ status w u e a w2 v h.
            let good =
              assert-true (eqb status 200) [] (lift-eq-ok (assert (eqb status 200) []) w2 h).0 in
            (w, (lift-eq-ok (net.status w url) w e).0 ∙ ap ok ((eqb_iff status 200).0 good)))

  check_banner-HasBanner :
      (host : Text) → Ensures (HasBanner host) (check_banner m net http https ssh host)
  unfolding check_banner
  check_banner-HasBanner host =
      let P = HasBanner host in
      Ensures-then P (note (reached host ssh)) _ (
        Ensures-bind P (λ log. lift (net.banner log host ssh) log) _
          λ text w u e. λ a w2 v h. (
            w,
            text,
            (lift-eq-ok (net.banner w host ssh) w e).0,
            assert-true (starts_with text (codes "SSH-2.0-")) (codes "Missing SSH protocol banner")
                (lift-eq-ok
                  (assert (starts_with text (codes "SSH-2.0-"))
                    (codes "Missing SSH protocol banner"))
                  w2 h).0,
          ))

  abbrev pub Closed : Text → ℕ → Unit {0} → Type 0
  Closed host port _ = (log : Log) × (net.is_open log host port ≡ false)

  check_closed-Closed :
      (host : Text) (port : ℕ) → Ensures (Closed host port) (check_closed net host port)
  unfolding check_closed
  check_closed-Closed host port =
      Ensures-then (Closed host port) (note (reached host port)) (refuse net host port) λ a w v h.
        (w, assert-false (net.is_open w host port) (codes "Unexpected listener") (ap (λ p. p.0) h))

  check_unused-AreClosed :
      (host : Text) (ports : List ℕ)
      → Ensures (λ _. All (IsClosed host) ports) (check_unused m net http https ssh host ports)
  unfolding check_unused
  check_unused-AreClosed host [] = Ensures-pure (λ _. Unit) tt tt
  check_unused-AreClosed host (port ∷ more) =
      let rest = check_unused-AreClosed host more in
      let P = λ (_ : Unit {0}). All (IsClosed host) (port ∷ more) in
      Ensures-cases P (is_used m net http https ssh port) _ _
        (λ used a w v h. ((λ free. absurd (true_is_false used free)), rest a w v h))
        (λ free.
          Ensures-bind P (check_closed net host port) _
            λ a w u e b w2 v h. ((λ _. check_closed-Closed host port a w u e), rest b w2 v h))

  check_host-IsReachable :
      (host : Text) → Ensures (λ _. IsReachable host) (check_host m net http https ssh host)
  unfolding check_host
  check_host-IsReachable host =
      let P = λ (_ : Unit {0}). IsReachable host in
      Ensures-bind P (check_status net (url_of m net http https ssh (codes "http") host http)) _
        λ a w u e.
          Ensures-bind P (check_status net (url_of m net http https ssh (codes "https") host https))
            _
            λ b w2 u2 e2. Ensures-bind P (check_banner m net http https ssh host) _ λ c w3 u3 e3.
              Ensures-bind P (check_unused m net http https ssh host default_ports) _
                λ d w4 u4 e4 _ _ _ _. (
                  check_status-Serves (url_of m net http https ssh (codes "http") host http) a w u
                      e,
                  check_status-Serves (url_of m net http https ssh (codes "https") host https) b w2
                      u2 e2,
                  check_banner-HasBanner host c w3 u3 e3,
                  check_unused-AreClosed host default_ports d w4 u4 e4,
                )

  check_hosts-AreReachable :
      (hosts : List Text)
      → Ensures (λ _. All IsReachable hosts) (check_hosts m net http https ssh hosts)
  unfolding check_hosts
  check_hosts-AreReachable [] = Ensures-pure (λ _. Unit) tt tt
  check_hosts-AreReachable (host ∷ more) =
      let P = λ (_ : Unit {0}). All IsReachable (host ∷ more) in
      Ensures-bind P (check_host m net http https ssh host) _ λ a w u e b w2 v h.
        (check_host-IsReachable host a w u e, check_hosts-AreReachable more b w2 v h)

-- If the test passes, then its port arguments are numbers, and every host that it names answers HTTP and HTTPS
-- with 200, greets as an SSH server, and took no connection at the default ports that are not used.
pub run-AreReachable :
    (m : Machine) (net : Network) (hosts http https ssh : Text) (log after : Log)
    → run m net hosts http https ssh log ≡ (ok tt, after)
    → (a : ℕ) × (b : ℕ) × (c : ℕ) × (int m http ≡ ok a)
      × (int m https ≡ ok b)
      × (int m ssh ≡ ok c)
      × All (IsReachable m net a b c) (split_on (λ x. eqb x b',') hosts)
unfolding run
run-AreReachable m net hosts http https ssh log after h =
    let P = λ (_ : Unit {0}).
      (a : ℕ) × (b : ℕ) × (c : ℕ) × (int m http ≡ ok a)
      × (int m https ≡ ok b)
      × (int m ssh ≡ ok c)
      × All (IsReachable m net a b c) (split_on (λ x. eqb x b',') hosts) in
    Ensures-lift P (int m http) _
      (λ a e. Ensures-lift P (int m https) _ λ b f. Ensures-lift P (int m ssh) _ λ c g t w v q. (
        a,
        b,
        c,
        e,
        f,
        g,
        check_hosts-AreReachable m net a b c (split_on (λ x. eqb x b',') hosts) t w v q,
      ))
      tt log after h
