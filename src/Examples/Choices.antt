-- ===== src/Examples/Choices.antt =====
-- The choice of tags and checksums, and the signals, on the toy platform.
use landscape_openwrt.Base.{
  ◌≡◌, ◌↔◌, ◌⊎◌, refl, List, [], ◌∷◌, true, false, some, All, In, Text, codes, raise, value_error,
  no_stable_tag, not_one_rootfs_checksum, arith, ok, ◌==◌, is_space,
}
use landscape_openwrt.Base.Dict
use landscape_openwrt.Base.Dict.{Dict}
use landscape_openwrt.Json.{Json, str, obj, end, field, of_dict, to_dict, index, get}
use landscape_openwrt.Upstreams.Digest.{digest_of}
use landscape_openwrt.Upstreams.Version.{text_at, is_stable_tag, latest_stable_tag}
use landscape_openwrt.Upstreams.Version.Latest.{Named, IsLatest, latest_stable_tag_lem}
use landscape_openwrt.Upstreams.Checksum.{rootfs_checksum}
use landscape_openwrt.Upstreams.Checksum.Laws.{
  IsEntry, IsOnly, render, sums_of, rootfs_checksum-render,
}
use landscape_openwrt.Upstreams.State.{
  signals, select_keys, inputs_digest, same_inputs, digest_label, digest_key,
}
use landscape_openwrt.Upstreams.State.Signals.{AgreeOn, same_inputs_iff, inputs_digest-insert}
use landscape_openwrt.Examples.Toy.{toy, toy-IsLawful}

abbrev named : Text → Json
named name = obj (field (codes "name") (str name) end)

abbrev tags : List Json
tags = named (codes "v24.10.5") ∷ named (codes "v24.9.12") ∷ named (codes "v25.12.0-rc1") ∷ []

tags-Named : All (Named toy toy-IsLawful) tags
unfolding text_at to_dict Dict.lookup ◌==◌
tags-Named = (
  (codes "v24.10.5", refl, omega arith),
  ((codes "v24.9.12", refl, omega arith), ((codes "v25.12.0-rc1", refl, omega arith), tt)),
)

latest_stable_tag_lem_example :
    ((latest_stable_tag toy tags ≡ raise (value_error no_stable_tag))
      × ((tag : Json) → In tag tags → is_stable_tag toy tag ≡ ok false))
    ⊎ ((tag : Json) × (latest_stable_tag toy tags ≡ ok tag) × IsLatest toy toy-IsLawful tag tags)
latest_stable_tag_lem_example = latest_stable_tag_lem toy toy-IsLawful tags tags-Named

abbrev entries : List (Text × Text)
entries = (codes "00ff", codes "a.tar.gz") ∷ (codes "11ee", codes "b.tar.gz") ∷ []

IsEntry-a : IsEntry (codes "00ff", codes "a.tar.gz")
unfolding is_space
IsEntry-a = record {
  sum_first = b'0';
  sum_rest = codes "0ff";
  sum_eq = refl;
  sum_solid = (refl, (refl, (refl, (refl, tt))));
  name_first = b'a';
  name_rest = codes ".tar.gz";
  name_eq = refl;
  name_solid = (refl, (refl, (refl, (refl, (refl, (refl, (refl, (refl, tt))))))));
  no_asterisk = refl;
}

IsEntry-b : IsEntry (codes "11ee", codes "b.tar.gz")
unfolding is_space
IsEntry-b = record {
  sum_first = b'1';
  sum_rest = codes "1ee";
  sum_eq = refl;
  sum_solid = (refl, (refl, (refl, (refl, tt))));
  name_first = b'b';
  name_rest = codes ".tar.gz";
  name_eq = refl;
  name_solid = (refl, (refl, (refl, (refl, (refl, (refl, (refl, (refl, tt))))))));
  no_asterisk = refl;
}

rootfs_checksum-render_example :
    ((sum : Text) × IsOnly (sums_of (codes "b.tar.gz") entries) sum
      × (rootfs_checksum (render entries) (codes "b.tar.gz") ≡ ok sum))
    ⊎ ((¬ ((sum : Text) × IsOnly (sums_of (codes "b.tar.gz") entries) sum))
        × (rootfs_checksum (render entries) (codes "b.tar.gz")
            ≡ raise (value_error not_one_rootfs_checksum)))
rootfs_checksum-render_example =
    rootfs_checksum-render (codes "b.tar.gz") entries (IsEntry-a, (IsEntry-b, tt))

abbrev state_at : Text → Dict Json
state_at time =
    (codes "immortalwrt_version", str (codes "24.10.5"))
    ∷ (codes "immortalwrt_commit", str (codes "abc"))
    ∷ (codes "passwall_release", str (codes "26.1.21-1"))
    ∷ (codes "handler_version", str (codes "v0.9.1"))
    ∷ (codes "source_revision", str (codes "0123abc"))
    ∷ (codes "checked_at", str time)
    ∷ (digest_key, str (digest_of toy []))
    ∷ []

abbrev monday : Json
monday = obj (of_dict (state_at (codes "Monday")))

abbrev friday : Json
friday = obj (of_dict (state_at (codes "Friday")))

abbrev published : Json
published = obj (of_dict ((digest_label, str (digest_of toy [])) ∷ []))

agree : All (AgreeOn monday friday) signals
unfolding index of_dict to_dict Dict.lookup ◌==◌
agree = (refl, (refl, (refl, (refl, (refl, tt)))))

monday_digest : inputs_digest toy monday ≡ ok (digest_of toy [])
unfolding inputs_digest select_keys index of_dict to_dict Dict.lookup ◌==◌
monday_digest = refl

friday_digest : inputs_digest toy friday ≡ ok (digest_of toy [])
unfolding inputs_digest select_keys index of_dict to_dict Dict.lookup ◌==◌
friday_digest = refl

published_label : get published digest_label ≡ ok (some (str (digest_of toy [])))
unfolding get of_dict to_dict Dict.lookup ◌==◌
published_label = refl

friday_sealed : text_at digest_key friday ≡ ok (digest_of toy [])
unfolding text_at of_dict to_dict Dict.lookup ◌==◌
friday_sealed = refl

one_choice :
    (a b : Dict Json)
    → select_keys monday signals ≡ ok a
    → select_keys friday signals ≡ ok b
    → a ≡ b
unfolding select_keys index of_dict to_dict Dict.lookup ◌==◌
one_choice a b e f = cc

same_inputs_iff_example :
    (same_inputs published friday ≡ ok true) ↔ All (AgreeOn monday friday) signals
same_inputs_iff_example =
    same_inputs_iff toy monday friday published (digest_of toy []) (digest_of toy []) monday_digest
      friday_digest published_label friday_sealed (λ a b e f _. one_choice a b e f)

fresh_key : All (λ k. (codes "repository" == k) ≡ false) signals
unfolding ◌==◌
fresh_key = (refl, (refl, (refl, (refl, (refl, tt)))))

inputs_digest-insert_example :
    inputs_digest toy (obj (of_dict (Dict.insert (codes "repository") (str []) (state_at []))))
    ≡ inputs_digest toy (obj (of_dict (state_at [])))
inputs_digest-insert_example =
    inputs_digest-insert toy (codes "repository") (str []) (state_at []) fresh_key
