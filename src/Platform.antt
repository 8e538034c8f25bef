-- ===== src/Platform.antt =====
-- What the program calls and does not implement: the network, the clock, the process environment,
-- `git`, and library functions that it only passes data through. Definitions take a `Platform`;
-- theorems name what they need of it from `IsLawful`.
use landscape_openwrt.Base.{
  ℕ, ◌-◌, ◌^◌, ◌<◌, ◌≡◌, Bool, true, Option, none, some, ◌&&◌, ◌||◌, leb, if◌then◌else◌, all,
  length, Text, Bytes, Headers, Result,
}
use landscape_openwrt.Base.Dict.{Dict}
use landscape_openwrt.Json.{Json}

-- A Python float as `float(text)` and `min` see it. A finite value that is not negative is a number
-- of ticks of 2^-54 seconds, and `negative n` is below zero by `n` of them; how floats round is not
-- modelled.
pub data Float : Type 0 where
  nan infinite negative_infinite : Float
  ticks negative : ℕ → Float

-- The outcome of opening a URL and reading its body.
pub data Answer : Type 0 where
  response : Bytes → Headers → Answer
  http_failure : ℕ → Headers → Answer
  network_failure : Text → Answer
  other_failure : Text → Answer

pub record Platform : Type 0 where
  -- `unicodedata.decimal`: the value of a character that `\d` matches.
  pub decimal : ℕ → Option ℕ
  -- `hashlib.sha256(data).hexdigest()`
  pub hexdigest : Bytes → Text
  pub encode : Text → Bytes
  pub decode : Bytes → Option Text
  -- `base64.b64encode(data).decode()`
  pub b64encode : Bytes → Text
  pub loads : Bytes → Option Json
  -- `str(value)` of a value that is no text.
  pub format : Json → Text
  -- `json.dumps(value, indent=2)`, with `sort_keys=True`, and `json.dumps(value, sort_keys=True)`.
  pub dumps_indented : Json → Text
  pub dumps_indented_sorted : Json → Text
  pub dumps_sorted : Dict Json → Text
  pub urlencode : Dict Text → Text
  pub unquote : Text → Text
  -- `float(text)`, `none` for a `ValueError`.
  pub parse_float : Text → Option Float
  -- The answer to the n-th request of the run.
  pub urlopen : ℕ → Text → Headers → Answer
  -- The n-th `random.random()` of the run, as a multiple of 2^-53.
  pub random : ℕ → ℕ
  -- The exception, by its name, with which an operation on this path fails behind so many events of the
  -- run, `none` if it is done.
  pub refused : ℕ → Text → Option Text
  pub environ : Text → Option Text
  -- `datetime.now(timezone.utc).isoformat()`
  pub now : Text
  -- `subprocess.check_output(["git", "log", …], text=True).strip()`
  pub git_log : Result Text

abbrev pub is_hex : ℕ → Bool
is_hex c = (leb b'0' c && leb c b'9') || (leb b'a' c && leb c b'f')

-- The documented behaviour of the library functions.
pub record IsLawful (py : Platform) : Type 0 where
  pub digest_length : (b : Bytes) → length (py.hexdigest b) ≡ 64
  pub digest_hex : (b : Bytes) → all is_hex (py.hexdigest b) ≡ true
  pub ascii_decimal :
      (c : ℕ)
      → c < 128
      → py.decimal c ≡ (if leb b'0' c && leb c b'9' then some (c - b'0') else none)
  pub random_lt : (n : ℕ) → py.random n < 2 ^ 53
