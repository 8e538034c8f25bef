-- ===== src/Login/Controls.antt =====
-- The class ProxyControls of scripts/smoke-login.py, and the page of PassWall.
use landscape_openwrt.Base.{
  ℕ, zero, suc, Bool, true, false, not, ◌&&◌, ◌||◌, Option, none, some, List, [], ◌∷◌, ◌++◌, eqb,
  if◌then◌else◌, Text, codes, ◌==◌, split_on, is_inside, assert, type_error, attribute_error,
  index_error, key_error, Result, ok, raise,
}
use landscape_openwrt.Base.{◌>>=◌ as bind}
use landscape_openwrt.Base.Dict
use landscape_openwrt.Base.Dict.{Dict}
use landscape_openwrt.Json.{Json, str, arr, obj, Items, nil, cons, get, flag}
use landscape_openwrt.Script.{Script, Machine, load, opened}
use landscape_openwrt.Login.{Web}

abbrev pub last_of : List Text → Text
last_of [] = []
last_of (a ∷ []) = a
last_of (a ∷ b ∷ more) = last_of (b ∷ more)

-- `text.rsplit('.', 1)[-1]`
unfoldable pub last_part : Text → Text
last_part text = last_of (split_on (λ c. eqb c b'.') text)

-- `dict(attrs)`
unfoldable pub dict_of : Dict (Option Text) → Dict (Option Text)
dict_of attrs = Dict.update [] attrs

-- `values.get('name', '')`, on which a string method is called.
abbrev pub name_of : Option (Option Text) → Result Text
name_of none = ok []
name_of (some none) = raise attribute_error
name_of (some (some name)) = ok name

-- `value[n]`
unfoldable pub nth : ℕ → Items → Result Json
nth n nil = raise index_error
nth zero (cons j js) = ok j
nth (suc n) (cons j js) = nth n js

unfoldable pub char_at : ℕ → Text → Result Json
char_at n [] = raise index_error
char_at zero (c ∷ s) = ok (str (c ∷ []))
char_at (suc n) (c ∷ s) = char_at n s

abbrev pub item_at : ℕ → Json → Result Json
item_at n (arr js) = nth n js
item_at n (str s) = char_at n s
item_at n (obj fields) = raise (key_error [])
item_at n _ = raise type_error

abbrev pub is_checkbox : Json → Bool
is_checkbox (str s) = s == codes "Checkbox"
is_checkbox _ = false

abbrev pub json_name : Option Json → Result Text
json_name none = ok []
json_name (some (str s)) = ok s
json_name (some _) = raise attribute_error

abbrev pub is_present : Option (Option Text) → Bool
is_present none = false
is_present (some value) = true

abbrev pub is_type : Option (Option Text) → Bool
is_type (some (some kind)) = kind == codes "checkbox"
is_type _ = false

module _ (m : Machine) where
  -- The name of a control that an `input` enables.
  unfoldable pub input_names : Text → Dict (Option Text) → Result (List Text)
  input_names tag values =
      if tag == codes "input"
        && is_type (Dict.lookup (codes "type") values)
        && not (is_present (Dict.lookup (codes "disabled") values))
      then (bind (name_of (Dict.lookup (codes "name") values)) λ name. ok (last_part name ∷ []))
      else ok []

  abbrev pub option_names : Json → Result (List Text)
  option_names options = bind (flag options (codes "readonly")) λ readonly.
      bind (if readonly then ok true else flag options (codes "disabled")) λ closed.
        if closed
        then ok []
        else bind (get options (codes "name"))
            λ found. bind (json_name found) λ name. ok (last_part name ∷ [])

  -- The name of a control that a widget enables.
  unfoldable pub widget_names : Option (Option Text) → Result (List Text)
  widget_names none = ok []
  widget_names (some none) = raise type_error
  widget_names (some (some text)) = bind (load m text) λ widget.
      bind (item_at 0 widget)
        λ kind. if is_checkbox kind then bind (item_at 2 widget) option_names else ok []

  -- `handle_starttag`, with the names that are enabled so far.
  unfoldable pub handle_starttag : Text → Dict (Option Text) → List Text → Result (List Text)
  handle_starttag tag attrs enabled = bind (input_names tag (dict_of attrs)) λ inputs.
      bind (widget_names (Dict.lookup (codes "data-ui-widget") (dict_of attrs)))
        λ widgets. ok (enabled ++ (inputs ++ widgets))

  -- `feed`
  unfoldable pub feed : List (Text × Dict (Option Text)) → List Text → Result (List Text)
  feed [] enabled = ok enabled
  feed ((tag, attrs) ∷ more) enabled =
      bind (handle_starttag tag attrs enabled) λ next. feed more next

  -- `name in enabled`
  unfoldable pub is_enabled : Text → List Text → Bool
  is_enabled name [] = false
  is_enabled name (other ∷ more) = name == other || is_enabled name more

  -- The message that transparent proxying is not available, in Chinese.
  abbrev pub unavailable : Text
  unavailable =
      0x7f3a ∷ 0x5c11 ∷ 0x7ec4 ∷ 0x4ef6 ∷ 0xff0c ∷ 0x900f ∷ 0x660e ∷ 0x4ee3 ∷ 0x7406 ∷ 0x4e0d
      ∷ 0x53ef ∷ 0x7528 ∷ []

  -- What the page must say.
  unfoldable pub check_text : ℕ → Text → Result (Unit {0})
  check_text status html =
      bind
        (assert
          (eqb status 200
            && (is_inside (codes "cbi-passwall") html || is_inside (codes "cbid.passwall.") html))
          (codes "PassWall configuration form missing"))
        λ _. bind (assert (not (is_inside (codes "Internal Server Error") html)) []) λ _.
          bind
            (assert
              (not (is_inside (codes "Missing components, transparent proxy is unavailable.") html))
              [])
            λ _. assert (not (is_inside unavailable html)) []

  unfoldable pub check_page : Web → ℕ × Text → Result (Unit {0})
  check_page web (status, html) = bind (check_text status html) λ _.
      bind (feed (web.start_tags html) []) λ enabled.
        assert
          (is_enabled (codes "localhost_proxy") enabled
            && is_enabled (codes "client_proxy") enabled)
          (codes "Transparent proxy controls are disabled")

  abbrev pub page_url : Text → Text
  page_url base = base ++ codes "/admin/services/passwall"

  unfoldable pub open_page : Web → Text → Dict Text → Script (ℕ × Text)
  open_page web base cookies log =
      (web.fetch log cookies (page_url base), opened (page_url base) [] ∷ log)
