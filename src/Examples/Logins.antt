-- ===== src/Examples/Logins.antt =====
-- A login test that passes.
use landscape_openwrt.Base.{
  ◌≡◌, refl, Option, none, some, List, [], ◌∷◌, ◌++◌, if◌then◌else◌, Text, codes, words, ◌==◌,
  strip, splitlines, lines_from, is_line_end, split_on, is_inside, starts_with, after_prefix, ok,
}
use landscape_openwrt.Base.Dict
use landscape_openwrt.Base.Dict.{Dict}
use landscape_openwrt.Json.{
  Json, Items, str, arr, obj, nil, cons, end, field, index, elements, as_text, to_list, to_dict,
}
use landscape_openwrt.Script.{Machine, exited, finished, process, check_output}
use landscape_openwrt.Upstreams.Version.{text_at}
use landscape_openwrt.Login.{
  answered, refused, Web, has_session, ssh_login, login, check_ssh, check_login,
}
use landscape_openwrt.Login.Controls.{
  last_part, dict_of, input_names, widget_names, handle_starttag, feed, is_enabled, check_text,
  check_page, open_page,
}
use landscape_openwrt.Login.Image.{
  versions_of, check_installed, check_feeds, check_secret, check_proxy, check_packages,
  check_offset, check_zone, check_repositories, check_secrets,
}
use landscape_openwrt.Login.Main.{run}
use landscape_openwrt.Login.Guarded.{IsGuarded, run-IsGuarded}
use landscape_openwrt.Examples.Bench.{bench, has}

abbrev secret : Text
secret = codes "secret"

abbrev values_of : Dict Text → Text
values_of [] = []
values_of ((key, value) ∷ more) = value ++ values_of more

abbrev checkbox : Text → Text × Dict (Option Text)
checkbox name = (
  codes "input",
  (codes "type", some (codes "checkbox"))
      ∷ (codes "name", some (codes "cbid.passwall." ++ name))
      ∷ [],
)

abbrev site : Web
site = record {
  post = λ log url form.
      (ok tt, if form == codes "rootsecret" then (codes "sysauth_http", codes "1") ∷ [] else []);
  fetch = λ log cookies url. ok (200, codes "cbi-passwall");
  ssh = λ log host port value. if value == secret then answered (codes "0") else refused;
  form = values_of;
  start_tags = λ html. checkbox (codes "localhost_proxy") ∷ checkbox (codes "client_proxy") ∷ [];
}

abbrev package_of : Text → Json
package_of name =
    obj (field (codes "name") (str name) (field (codes "version") (str (codes "1")) end))

abbrev items_of : List Text → Items
items_of [] = nil
items_of (name ∷ names) = cons (package_of name) (items_of names)

abbrev packages_of : List Text → Json
packages_of names = arr (items_of names)

abbrev environment : Text → Option Text
environment key =
    if key == codes "LAND_ROOT_PASSWORD"
    then some secret
    else if key == codes "TZ"
    then some (codes "Asia/Shanghai")
    else if key == codes "PREVIOUS_ROOT_PASSWORD"
    then none
    else some (codes "2")

abbrev output_of : List Text → Text
output_of args =
    if has (codes "apk") args
    then codes "packages"
    else if has (codes "uci") args
    then codes "Asia/Shanghai"
    else if has (codes "date") args
    then codes "+0800"
    else if has (codes "/etc/apk/repositories.d/distfeeds.list") args
    then codes "https://mirrors.ustc.edu.cn/immortalwrt/x"
    else []

abbrev image : Machine
image = record bench {
  run = λ log args input. finished (exited 0) (output_of args) [];
  environ = environment;
  loads = λ text. some (
      if text == codes "packages"
      then packages_of (
          words
            "luci-app-passwall luci-i18n-passwall-zh-cn geoview chinadns-ng xray-core sing-box hysteria haproxy")
      else obj (field (codes "passwall_version") (str (codes "1")) end));
}

passed : run image site (codes "c") [] ≡ (ok tt, (run image site (codes "c") []).1)
unfolding run check_ssh ssh_login check_login login has_session open_page check_page check_text feed
    handle_starttag dict_of input_names widget_names last_part is_enabled check_proxy check_packages
    check_zone check_offset check_repositories check_secrets check_secret check_feeds
    check_installed versions_of check_output process strip splitlines lines_from is_line_end
    split_on is_inside starts_with after_prefix index elements as_text to_list to_dict text_at
    Dict.lookup Dict.insert Dict.update ◌==◌
passed = refl

run-IsGuarded_example : IsGuarded image site tt
run-IsGuarded_example =
    run-IsGuarded image site (codes "c") [] (run image site (codes "c") []).1 passed
