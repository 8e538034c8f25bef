-- ===== src/Examples/Installs.antt =====
-- The install inputs of an architecture.
use landscape_openwrt.Base.{◌≡◌, refl, [], ◌∷◌, Text, codes, ok, ◌==◌, starts_with}
use landscape_openwrt.Base.Dict
use landscape_openwrt.Base.Dict.{Dict}
use landscape_openwrt.Json.{Json, str, obj, end, field, of_dict, to_dict, index, items}
use landscape_openwrt.Upstreams.State.{install_inputs, feed_url_key, feed_sha_key, arches_key}
use landscape_openwrt.Upstreams.State.Install.{HasFeed, install_value, install_inputs-lookup}

abbrev feed : Json
feed = obj (field feed_url_key (str (codes "u")) (field feed_sha_key (str (codes "s")) end))

abbrev fields : Dict Json
fields =
    (codes "passwall_url", str (codes "p"))
    ∷ (codes "handler_version", str (codes "v1.0.0"))
    ∷ (arches_key, obj (field (codes "amd64") feed end))
    ∷ []

abbrev install : Dict Json
install =
    (codes "passwall_url", str (codes "p"))
    ∷ (feed_url_key, str (codes "u"))
    ∷ (feed_sha_key, str (codes "s"))
    ∷ []

install_read : install_inputs (obj (of_dict fields)) (codes "amd64") ≡ ok install
unfolding install_inputs items index to_dict of_dict starts_with Dict.restrict Dict.insert
    Dict.lookup ◌==◌
install_read = refl

install_inputs-lookup_example :
    (url : Json) × (sum : Json) × HasFeed (obj (of_dict fields)) (codes "amd64") url sum
    × ((key : Text) → Dict.lookup key install ≡ install_value fields url sum key)
install_inputs-lookup_example = install_inputs-lookup fields install (codes "amd64") install_read
