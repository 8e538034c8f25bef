-- ===== src/Login/Image.antt =====
-- What scripts/smoke-login.py tests inside the container.
use landscape_openwrt.Base.{
  Bool, true, false, not, ◌&&◌, ◌||◌, Option, none, some, List, [], ◌∷◌, ◌++◌, leb, length,
  if◌then◌else◌, Text, codes, words, ◌==◌, strip, splitlines, starts_with, is_inside, assert,
  key_error, Result, ok, raise,
}
use landscape_openwrt.Base.{◌>>=◌ as bind}
use landscape_openwrt.Base.Dict
use landscape_openwrt.Base.Dict.{Dict}
use landscape_openwrt.Json.{Json, elements}
use landscape_openwrt.Action.{lift, ◌>>=◌, ◌>>◌}
use landscape_openwrt.Script.{Script, Machine, note, printed, check_output, load, environ_of}
use landscape_openwrt.Upstreams.Version.{text_at}
use landscape_openwrt.Login.{is_empty}

-- `{p['name']: p['version'] for p in packages}`, for names and versions that are texts.
unfoldable pub versions_of : Dict Text → List Json → Result (Dict Text)
versions_of versions [] = ok versions
versions_of versions (p ∷ more) = bind (text_at (codes "name") p) λ name.
    bind (text_at (codes "version") p)
      λ version. versions_of (Dict.insert name version versions) more

abbrev pub value_of : Text → Option Text → Result Text
value_of key none = raise (key_error key)
value_of key (some value) = ok value

abbrev pub is_some : Option Text → Bool
is_some none = false
is_some (some value) = true

unfoldable pub check_installed : Dict Text → List Text → Result (Unit {0})
check_installed versions [] = ok tt
check_installed versions (name ∷ more) =
    bind (assert (is_some (Dict.lookup name versions)) name) λ _. check_installed versions more

abbrev pub mirror : Text
mirror = codes "https://mirrors.ustc.edu.cn/immortalwrt/"

-- A line that is neither blank nor a comment names the mirror.
unfoldable pub check_feeds : List Text → Result (Unit {0})
check_feeds [] = ok tt
check_feeds (line ∷ more) =
    let rest = check_feeds more in
    bind
      (assert (is_empty (strip line) || starts_with line (codes "#") || starts_with line mirror)
        (codes "Unexpected system feed"))
      λ _. rest

-- The text of a file must not hold the password's variable, nor a password of 12 characters or more.
unfoldable pub check_secret : Text → Text → Result (Unit {0})
check_secret password content =
    bind
      (assert (not (is_inside (codes "LAND_ROOT_PASSWORD=") content))
        (codes "Password environment inherited by services"))
      λ _.
        assert (not (leb 12 (length password)) || not (is_inside password content))
          (codes "Password leaked into service environment or UCI")

module _ (m : Machine) (name : Text) where
  abbrev pub output : List Text → Script Text
  output args = check_output m (words "docker exec" ++ name ∷ args)

  unfoldable pub check_proxy : Script (Unit {0})
  check_proxy = do
    output (words "/usr/libexec/landscape-proxy-check")
    tables ← output (words "nft list tables")
    lift (assert (not (is_inside (codes "landscape_proxy_probe_") tables)) [])
    note (
        printed (
          codes
            "PASS: both PassWall proxy controls enabled through actual kernel capability checks, with no probe rules installed"))

  unfoldable pub check_packages : Script (Unit {0})
  check_packages = do
    raw ← output (words "apk query --installed --format json --fields name,version *")
    listed ← lift (load m raw)
    packages ← lift (elements listed)
    versions ← lift (versions_of [] packages)
    text ← output (words "cat /usr/share/landscape-openwrt/upstream.json")
    metadata ← lift (load m text)
    app ←
        lift
          (value_of (codes "luci-app-passwall") (Dict.lookup (codes "luci-app-passwall") versions))
    expected ← lift (text_at (codes "passwall_version") metadata)
    lift (assert (app == expected) [])
    lift (check_installed versions (codes "luci-i18n-passwall-zh-cn" ∷ []))
    lift
        (check_installed versions (words "geoview chinadns-ng xray-core sing-box hysteria haproxy"))

  abbrev pub is_shanghai : Text → Bool
  is_shanghai zone = zone == codes "Asia/Shanghai"

  unfoldable pub check_offset : Text → Text → Script (Unit {0})
  check_offset epoch expected = do
    actual ← output (words "date -d" ++ (codes "@" ++ epoch) ∷ codes "+%z" ∷ [])
    lift (assert (strip actual == expected) [])

  unfoldable pub check_zone : Script (Unit {0})
  check_zone = do
    text ← output (words "uci get system.@system[0].zonename")
    configured ← lift (environ_of m (codes "TZ"))
    lift (assert (strip text == configured) [])
    check_offset (codes "1767225600")
        (if is_shanghai (strip text) then codes "+0800" else codes "+0100")
    check_offset (codes "1782864000")
        (if is_shanghai (strip text) then codes "+0800" else codes "+0200")
    note (
        printed (codes "PASS: TZ matches LuCI and winter/summer timezone offsets after recreation"))

  unfoldable pub check_repositories : Script (Unit {0})
  check_repositories = do
    feeds ← output (words "cat /etc/apk/repositories.d/distfeeds.list")
    lift (assert (is_inside mirror feeds) [])
    lift (
        assert
          (not (is_inside (codes "https://downloads.immortalwrt.org") feeds)
            && not (is_inside (codes "mirrors.vsean.net") feeds))
          [])
    lift (check_feeds (splitlines feeds))

  unfoldable pub check_secrets : Text → Script (Unit {0})
  check_secrets password = do
    environment ← output (words "cat /proc/1/environ")
    lift (check_secret password environment)
    settings ← output (words "cat /etc/config/landscape")
    lift (check_secret password settings)
