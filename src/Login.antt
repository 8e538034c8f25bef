-- ===== src/Login.antt =====
-- scripts/smoke-login.py: the logins of a running image. The HTTP client with its cookies, the SSH
-- client and the HTML parser are parameters.
pub mod Controls
pub mod Image
pub mod Main
pub mod Guarded
use landscape_openwrt.Base.{
  ℕ, Bool, true, false, not, ◌&&◌, ◌||◌, Option, none, some, List, [], ◌∷◌, ◌++◌, eqb,
  if◌then◌else◌, Text, Bytes, codes, ◌==◌, strip, starts_with, assert, Error, http_error, key_error,
  Result, ok, raise,
}
use landscape_openwrt.Base.{◌>>=◌ as bind}
use landscape_openwrt.Base.Dict.{Dict}
use landscape_openwrt.Action.{pure, lift, ◌>>=◌, ◌>>◌}
use landscape_openwrt.Script.{
  Log, Script, Machine, environ_of, note, printed, opened, connected, int,
}

-- An SSH session with the output of `id -u`, an `AuthenticationException`, or another exception.
pub data Session : Type 0 where
  answered : Text → Session
  refused : Session
  broken : Error → Session

-- What the script calls and does not implement.
pub record Web : Type 0 where
  -- A URL opened with form data and no cookies: what it raises, and the cookies then.
  pub post : Log → Text → Text → Result (Unit {0}) × Dict Text
  -- A URL opened with cookies: the status and the decoded text.
  pub fetch : Log → Dict Text → Text → Result (ℕ × Text)
  -- An SSH session with a host, at a port, as root with a password.
  pub ssh : Log → Text → ℕ → Text → Session
  -- `urlencode`
  pub form : Dict Text → Text
  -- The start tags that the parser finds, with their attributes.
  pub start_tags : Text → List (Text × Dict (Option Text))

abbrev pub host4 : Text
host4 = codes "172.30.80.2"

abbrev pub host6 : Text
host6 = codes "fd70:6c61:6e64:80::2"

abbrev pub wrong : Text → Text
wrong password = password ++ codes "-incorrect"

-- A 403 is passed over.
abbrev pub pass_refusal : Result (Unit {0}) → Result (Unit {0})
pass_refusal (ok tt) = ok tt
pass_refusal (raise (http_error status headers)) =
    if eqb status 403 then ok tt else raise (http_error status headers)
pass_refusal (raise e) = raise e

abbrev pub is_empty : Text → Bool
is_empty [] = true
is_empty (c ∷ s) = false

-- `any(c.name.startswith('sysauth') and c.value for c in cookies)`
unfoldable pub has_session : Dict Text → Bool
has_session [] = false
has_session ((name, value) ∷ more) =
    (starts_with name (codes "sysauth") && not (is_empty value)) || has_session more

abbrev pub session_result : Session → Result Bool
session_result (answered out) = bind (assert (strip out == codes "0") []) λ _. ok true
session_result refused = ok false
session_result (broken e) = raise e

-- `if text:`, for what `os.environ.get` returns.
abbrev pub given : Option Text → Option Text
given (some (c ∷ s)) = some (c ∷ s)
given _ = none

module _ (m : Machine) (web : Web) where
  unfoldable pub ssh_login : Text → Text → Script Bool
  ssh_login host value = do
    text ← lift (environ_of m (codes "SSH_PORT"))
    port ← lift (int m text)
    λ log. (session_result (web.ssh log host port value), connected host value ∷ log)

  -- The form of a login.
  abbrev pub form_data : Text → Text
  form_data value =
      web.form ((codes "luci_username", codes "root") ∷ (codes "luci_password", value) ∷ [])

  module _ (base : Text) where
    abbrev pub login_result : Result (Unit {0}) × Dict Text → Result (Dict Text × Bool)
    login_result (answer, cookies) =
        bind (pass_refusal answer) λ _. ok (cookies, has_session cookies)

    -- The cookies stand for the opener.
    unfoldable pub login : Text → Script (Dict Text × Bool)
    login value log = (
      login_result (web.post log (base ++ codes "/") (form_data value)),
      opened (base ++ codes "/") (form_data value) ∷ log,
    )

  -- The old password must not be accepted, if there is one.
  abbrev pub refuse_ssh : Option Text → Script (Unit {0})
  refuse_ssh none = pure tt
  refuse_ssh (some value) = do
    accepted ← ssh_login host4 value
    lift (assert (not accepted) (codes "SSH accepted the old password"))

  unfoldable pub check_ssh : Text → Script (Unit {0})
  check_ssh password = do
    accepted4 ← ssh_login host4 password
    lift (assert accepted4 (codes "Configured root password was not accepted by SSH"))
    accepted6 ← ssh_login host6 password
    lift (assert accepted6 (codes "ULA SSH login failed"))
    accepted ← ssh_login host4 (wrong password)
    lift (assert (not accepted) (codes "SSH accepted an incorrect password"))
    refuse_ssh (given (m.environ (codes "PREVIOUS_ROOT_PASSWORD")))
    note (
        printed (
          codes
            "PASS: IPv4/ULA SSH root login and wrong/old password rejection at the native port"))

  abbrev pub refuse_login : Text → Option Text → Script (Unit {0})
  refuse_login base none = pure tt
  refuse_login base (some value) = do
    (_, accepted) ← login base value
    lift (assert (not accepted) (codes "Old root password still accepted after recreation"))

  -- The opener that the configured password logged in.
  unfoldable pub check_login : Text → Text → Script (Dict Text)
  check_login base password = do
    (cookies, accepted) ← login base password
    lift (assert accepted (codes "Configured root password was not accepted by LuCI"))
    (_, other) ← login base (wrong password)
    lift (assert (not other) (codes "LuCI accepted an incorrect password"))
    refuse_login base (given (m.environ (codes "PREVIOUS_ROOT_PASSWORD")))
    pure cookies
