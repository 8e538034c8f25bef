-- ===== src/Login/Guarded.antt =====
-- What an image has that passes the login test.
use landscape_openwrt.Base.{
  assert-true, assert-false, ok-inj, some-inj, ℕ, ◌≡◌, refl, sym, ap, subst, ==_iff, Option, ◌∙◌,
  Bool, true, false, not, ◌&&◌, none, some, List, [], ◌++◌, arith, assert, Text, codes, ◌==◌, strip,
  ok,
}
use landscape_openwrt.Base.{>>=-eq-ok as bind-eq-ok}
use landscape_openwrt.Base.Dict.{Dict}
use landscape_openwrt.Action.Laws.{
  lift-eq-ok, Ensures, Ensures-bind, Ensures-then, Ensures-lift, Ensures-pure,
}
use landscape_openwrt.Script.{Log, Machine, environ_of, int}
use landscape_openwrt.Login.{
  Session, answered, refused, broken, Web, host4, host6, wrong, given, has_session, session_result,
  pass_refusal, ssh_login, form_data, login, refuse_ssh, refuse_login, check_ssh, check_login,
}
use landscape_openwrt.Login.Controls.{feed, is_enabled, page_url, open_page, check_text, check_page}
use landscape_openwrt.Login.Main.{base_url, run}

-- A session that counts as a login, or as a refusal.
abbrev pub Outcome : Bool → Session → Type 0
Outcome true s = (out : Text) × (s ≡ answered out) × (strip out ≡ codes "0")
Outcome false s = s ≡ refused

session_result-Outcome : (s : Session) (b : Bool) → session_result s ≡ ok b → Outcome b s
session_result-Outcome (answered out) true h =
    let (_, e, _) = bind-eq-ok (assert (strip out == codes "0") []) _ h in
    (out, refl, (==_iff (strip out) (codes "0")).0 (assert-true (strip out == codes "0") [] e))
session_result-Outcome (answered out) false h =
    let (_, _, q) = bind-eq-ok (assert (strip out == codes "0") []) _ h in cc
session_result-Outcome refused true h = cc
session_result-Outcome refused false h = refl
session_result-Outcome (broken e) true h = cc
session_result-Outcome (broken e) false h = cc

module _ (m : Machine) (web : Web) where
  -- A session with the host that was asked for with the password.
  abbrev pub Asked : Text → Text → Bool → Type 0
  Asked host value b = (before : Log) × (port : ℕ) × Outcome b (web.ssh before host port value)

  ssh_login-Asked : (host value : Text) → Ensures (Asked host value) (ssh_login m web host value)
  unfolding ssh_login
  ssh_login-Asked host value =
      let P = Asked host value in
      Ensures-lift P (environ_of m (codes "SSH_PORT")) _ λ text _.
        Ensures-lift P (int m text) _ λ port _ b w v h.
          (w, port, session_result-Outcome (web.ssh w host port value) b (ap (λ p. p.0) h))

  -- The cookies that a login form gave, with or without a session among them.
  abbrev pub Posted : Text → Text → Dict Text × Bool → Type 0
  Posted base value got =
      (before : Log) × ((web.post before (base ++ codes "/") (form_data m web value)).1 ≡ got.0)
      × (has_session got.0 ≡ got.1)

  login-Posted : (base value : Text) → Ensures (Posted base value) (login m web base value)
  unfolding login
  login-Posted base value got w v h =
      let (answer, cookies) = web.post w (base ++ codes "/") (form_data m web value) in
      let (_, _, q) = bind-eq-ok (pass_refusal answer) _ (ap (λ p. p.0) h) in
      let e : (cookies, has_session cookies) ≡ got = ok-inj (cookies, has_session cookies) got q in
      (w, ap (λ g. g.0) e, sym (ap (λ g. has_session g.0) e) ∙ ap (λ g. g.1) e)

  -- An old password, if one is given, is refused.
  abbrev pub OldRefused : Option Text → Unit {0} → Type 0
  OldRefused old _ = (value : Text) → old ≡ some value → Asked host4 value false

  refuse_ssh-OldRefused : (old : Option Text) → Ensures (OldRefused old) (refuse_ssh m web old)
  refuse_ssh-OldRefused none = Ensures-pure (OldRefused none) tt (λ value e. cc)
  refuse_ssh-OldRefused (some old) =
      let P = OldRefused (some old) in
      Ensures-bind P (ssh_login m web host4 old) _ λ accepted w u e a w2 v h value f.
        let message = codes "SSH accepted the old password" in
        let g = assert-false accepted message (lift-eq-ok (assert (not accepted) message) w2 h).0 in
        subst (λ (t : Text). Asked host4 t false) (some-inj old value f)
          (subst (Asked host4 old) g (ssh_login-Asked host4 old accepted w u e))

  abbrev previous : Option Text
  previous = given (m.environ (codes "PREVIOUS_ROOT_PASSWORD"))

  -- What the SSH part shows of the password.
  abbrev pub SshGuarded : Text → Unit {0} → Type 0
  SshGuarded password _ =
      Asked host4 password true
      × Asked host6 password true
      × Asked host4 (wrong password) false
      × OldRefused previous tt

  check_ssh-SshGuarded :
      (password : Text) → Ensures (SshGuarded password) (check_ssh m web password)
  unfolding check_ssh
  check_ssh-SshGuarded password =
      let P = SshGuarded password in
      Ensures-bind P (ssh_login m web host4 password) _ λ accepted4 w4 v4 e4.
        Ensures-lift P (assert accepted4 _) _ λ _ t4.
          Ensures-bind P (ssh_login m web host6 password) _ λ accepted6 w6 v6 e6.
            Ensures-lift P (assert accepted6 _) _ λ _ t6.
              Ensures-bind P (ssh_login m web host4 (wrong password)) _ λ accepted w v e.
                Ensures-lift P (assert (not accepted) _) _ λ _ t.
                  Ensures-bind P (refuse_ssh m web previous) _ λ _ w0 v0 e0 _ _ _ _. (
                    subst (Asked host4 password) (assert-true accepted4 _ t4)
                        (ssh_login-Asked host4 password accepted4 w4 v4 e4),
                    subst (Asked host6 password) (assert-true accepted6 _ t6)
                        (ssh_login-Asked host6 password accepted6 w6 v6 e6),
                    subst (Asked host4 (wrong password)) (assert-false accepted _ t)
                        (ssh_login-Asked host4 (wrong password) accepted w v e),
                    refuse_ssh-OldRefused previous tt w0 v0 e0,
                  )

  -- What the login to LuCI shows of the password, with the cookies that it gives.
  abbrev pub FormGuarded : Text → Text → Dict Text → Type 0
  FormGuarded base password cookies =
      Posted base password (cookies, true)
      × ((other : Dict Text) × Posted base (wrong password) (other, false))

  check_login-FormGuarded :
      (base password : Text) → Ensures (FormGuarded base password) (check_login m web base password)
  unfolding check_login
  check_login-FormGuarded base password =
      let P = FormGuarded base password in
      Ensures-bind P (login m web base password) _ λ (cookies, accepted) w v e.
        Ensures-lift P (assert accepted _) _ λ _ t.
          Ensures-bind P (login m web base (wrong password)) _ λ (other, found) w2 v2 e2.
            Ensures-lift P (assert (not found) _) _ λ _ t2.
              Ensures-then P (refuse_login m web base previous) _ (
                Ensures-pure P cookies (
                  subst (λ b. Posted base password (cookies, b)) (assert-true accepted _ t)
                      (login-Posted base password (cookies, accepted) w v e),
                  (
                    other,
                    subst (λ b. Posted base (wrong password) (other, b)) (assert-false found _ t2)
                        (login-Posted base (wrong password) (other, found) w2 v2 e2),
                  ),
                ))

  -- The page that the cookies open has both controls enabled.
  abbrev pub HasControls : Text → Dict Text → Type 0
  HasControls base cookies =
      (before : Log) × (status : ℕ) × (html : Text) × (enabled : List Text) × (web.fetch before
          cookies (page_url m base)
        ≡ ok (status, html))
      × (feed m (web.start_tags html) [] ≡ ok enabled)
      × (is_enabled m (codes "localhost_proxy") enabled ≡ true)
      × (is_enabled m (codes "client_proxy") enabled ≡ true)

  -- The image that the test passes.
  abbrev pub IsGuarded : Unit {0} → Type 0
  IsGuarded _ =
      (password : Text) × (port : Text) × (cookies : Dict Text) × (environ_of m
          (codes "LAND_ROOT_PASSWORD")
        ≡ ok password)
      × (environ_of m (codes "LUCI_HTTP_PORT") ≡ ok port)
      × SshGuarded password tt
      × FormGuarded (base_url port) password cookies
      × HasControls (base_url port) cookies

  and-true : (a b : Bool) → a && b ≡ true → (a ≡ true) × (b ≡ true)
  and-true a b h = ground arith

  check_page-controls :
      (status : ℕ) (html : Text)
      → check_page m web (status, html) ≡ ok tt
      → (enabled : List Text) × (feed m (web.start_tags html) [] ≡ ok enabled)
        × (is_enabled m (codes "localhost_proxy") enabled ≡ true)
        × (is_enabled m (codes "client_proxy") enabled ≡ true)
  unfolding check_page
  check_page-controls status html h =
      let (_, _, d) = bind-eq-ok (check_text m status html) _ h in
      let (enabled, e, f) = bind-eq-ok (feed m (web.start_tags html) []) _ d in
      let both =
        assert-true
          (is_enabled m (codes "localhost_proxy") enabled
            && is_enabled m (codes "client_proxy") enabled)
          (codes "Transparent proxy controls are disabled") f in
      let (localhost, client) =
        and-true (is_enabled m (codes "localhost_proxy") enabled)
          (is_enabled m (codes "client_proxy") enabled) both in
      (enabled, e, localhost, client)

  -- The test passes only if the configured password is accepted by SSH at both addresses and by LuCI,
  -- a wrong one by neither, an old one by no SSH session, and the page that LuCI then shows has both
  -- proxy controls enabled.
  pub run-IsGuarded :
      (name : Text) (log after : Log) → run m web name log ≡ (ok tt, after) → IsGuarded tt
  unfolding run open_page
  run-IsGuarded name log after h =
      let P = IsGuarded in
      Ensures-lift P (environ_of m (codes "LAND_ROOT_PASSWORD")) _
        (λ password e. Ensures-lift P (environ_of m (codes "LUCI_HTTP_PORT")) _ λ port f.
          Ensures-bind P (check_ssh m web password) _ λ _ w v g.
            Ensures-bind P (check_login m web (base_url port) password) _ λ cookies w2 v2 g2.
              Ensures-bind P (open_page m web (base_url port) cookies) _ λ (status, html) w3 v3 g3.
                Ensures-lift P (check_page m web (status, html)) _ λ _ t _ _ _ _.
                  let (enabled, fed, localhost, client) = check_page-controls status html t in
                  (
                    password,
                    port,
                    cookies,
                    e,
                    f,
                    check_ssh-SshGuarded password tt w v g,
                    check_login-FormGuarded (base_url port) password cookies w2 v2 g2,
                    (w3, status, html, enabled, ap (λ p. p.0) g3, fed, localhost, client),
                  ))
        tt log after h
