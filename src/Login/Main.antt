-- ===== src/Login/Main.antt =====
-- The run of scripts/smoke-login.py.
use landscape_openwrt.Base.{◌++◌, Text, codes}
use landscape_openwrt.Action.{lift, ◌>>=◌, ◌>>◌}
use landscape_openwrt.Script.{Script, Machine, environ_of, note, printed}
use landscape_openwrt.Login.{Web, check_ssh, check_login}
use landscape_openwrt.Login.Controls.{open_page, check_page}
use landscape_openwrt.Login.Image.{
  check_proxy, check_packages, check_zone, check_repositories, check_secrets,
}

abbrev pub base_url : Text → Text
base_url port = codes "http://172.30.80.2:" ++ (port ++ codes "/cgi-bin/luci")

module _ (m : Machine) (web : Web) where
  unfoldable pub run : Text → Script (Unit {0})
  run name = do
    password ← lift (environ_of m (codes "LAND_ROOT_PASSWORD"))
    port ← lift (environ_of m (codes "LUCI_HTTP_PORT"))
    check_ssh m web password
    cookies ← check_login m web (base_url port) password
    page ← open_page m web (base_url port) cookies
    lift (check_page m web page)
    check_proxy m name
    check_packages m name
    check_zone m name
    check_repositories m name
    check_secrets m name password
    note (
        printed (
          codes
            "PASS: real LuCI password login, wrong/old password rejection, PassWall page and installed APK versions"))
