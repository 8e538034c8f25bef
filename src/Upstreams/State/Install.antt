-- ===== src/Upstreams/State/Install.antt =====
-- What the install layer of an architecture depends on.
use landscape_openwrt.Base.{
  ok-inj, ◌≡◌, sym, ap, ◌∙◌, Option, none, some, if◌then◌else◌, Text, ◌==◌, ok, >>=-eq-ok,
}
use landscape_openwrt.Base.Dict
use landscape_openwrt.Base.Dict.{Dict, lookup-insert, lookup-restrict}
use landscape_openwrt.Json.{Json, obj, of_dict, index, items, items-of_dict}
use landscape_openwrt.Upstreams.State.{
  install_inputs, is_install_key, feed_url_key, feed_sha_key, arches_key,
}

-- The package feed of an architecture in the state: its URL and its checksum.
abbrev pub HasFeed : Json → Text → Json → Json → Type 0
HasFeed state arch url sum =
    (nested : Json) × (inputs : Json) × (index state arches_key ≡ ok nested)
    × (index nested arch ≡ ok inputs)
    × (index inputs feed_url_key ≡ ok url)
    × (index inputs feed_sha_key ≡ ok sum)

-- The value of a key among the install inputs of a state `d`.
abbrev pub install_value : Dict Json → Json → Json → Text → Option Json
install_value d url sum key =
    if feed_sha_key == key
    then some sum
    else if feed_url_key == key
    then some url
    else if is_install_key key
    then Dict.lookup key d
    else none

lookup-install :
    (d : Dict Json) (url sum : Json) (key : Text)
    → Dict.lookup key (
        Dict.insert feed_sha_key sum
          (Dict.insert feed_url_key url (Dict.restrict is_install_key d)))
      ≡ install_value d url sum key
lookup-install d url sum key =
    lookup-insert feed_sha_key key sum
      (Dict.insert feed_url_key url (Dict.restrict is_install_key d))
    ∙ ap (λ (rest : Option Json). if feed_sha_key == key then some sum else rest)
        (lookup-insert feed_url_key key url (Dict.restrict is_install_key d)
          ∙ ap (λ (rest : Option Json). if feed_url_key == key then some url else rest)
              (lookup-restrict is_install_key key d))

-- The install inputs of an architecture hold the feed of the architecture, the PassWall and signing
-- key fields of the state, and nothing else.
pub install_inputs-lookup :
    (d install : Dict Json) (arch : Text)
    → install_inputs (obj (of_dict d)) arch ≡ ok install
    → (url : Json) × (sum : Json) × HasFeed (obj (of_dict d)) arch url sum
      × ((key : Text) → Dict.lookup key install ≡ install_value d url sum key)
unfolding install_inputs
install_inputs-lookup d install arch h =
    let (fields, e0, h0) = >>=-eq-ok (items (obj (of_dict d))) _ h in
    let (nested, e1, h1) = >>=-eq-ok (index (obj (of_dict d)) arches_key) _ h0 in
    let (inputs, e2, h2) = >>=-eq-ok (index nested arch) _ h1 in
    let (url, e3, h3) = >>=-eq-ok (index inputs feed_url_key) _ h2 in
    let (sum, e4, h4) = >>=-eq-ok (index inputs feed_sha_key) _ h3 in
    let own : fields ≡ d = ok-inj fields d (sym e0 ∙ items-of_dict d) in
    (
      url,
      sum,
      (nested, inputs, e1, e2, e3, e4),
      λ key.
          ap (Dict.lookup key) (sym (ok-inj _ install h4))
          ∙ lookup-install fields url sum key
          ∙ ap (λ (f : Dict Json). install_value f url sum key) own,
    )
