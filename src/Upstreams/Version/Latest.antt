-- ===== src/Upstreams/Version/Latest.antt =====
-- `latest_stable_tag`, and `max` by version key in general.
use landscape_openwrt.Base.{
  ◌≡◌, ◌≤◌, length, refl, ap, subst, sym, ◌∙◌, ◌⊎◌, inl, inr, true, false, List, [], ◌∷◌, arith, In,
  All, Bool-cases, Text, ok, raise, value_error, no_stable_tag, each, keep-AreKept, AreKept,
  Decides, All-In, All-of_forall,
}
use landscape_openwrt.Regex.{fullmatch}
use landscape_openwrt.Json.{Json}
use landscape_openwrt.Platform.{Platform, IsLawful}
use landscape_openwrt.Upstreams.Version.{
  Key, key_lt, max_from, with_key, newest_by, text_at, name_field, is_stable_tag, latest_of,
  latest_stable_tag, tag_pattern, max_digits,
}
use landscape_openwrt.Upstreams.Version.Keys.{version_key-tag}
use landscape_openwrt.Upstreams.Version.Order.{max_from-In, max_from-ge}

module _ (py : Platform) (field : Text) where
  -- The item has a version key.
  abbrev pub Keyed : Json → Type 0
  Keyed item = (k : Key) × (with_key py field item ≡ ok (k, item))

  -- The item has a version key, and not one above `best`.
  abbrev pub AtMost : Key → Json → Type 0
  AtMost best item = (k : Key) × (with_key py field item ≡ ok (k, item)) × (key_lt best k ≡ false)

  -- `best` is the key of an item of the list, and no item has a greater one.
  abbrev pub IsNewest : Json → List Json → Type 0
  IsNewest item items =
      (best : Key) × (with_key py field item ≡ ok (best, item))
      × In item items
      × All (AtMost best) items

  abbrev Pairs : List Json → List (Key × Json) → Type 0
  Pairs [] [] = Unit
  Pairs [] (y ∷ ys) = ⊥
  Pairs (x ∷ xs) [] = ⊥
  Pairs (x ∷ xs) (y ∷ ys) = (with_key py field x ≡ ok y) × (x ≡ y.1) × Pairs xs ys

  each-Pairs :
      (xs : List Json)
      → All Keyed xs
      → (ys : List (Key × Json)) × (each (with_key py field) xs ≡ ok ys) × Pairs xs ys
  unfolding each
  each-Pairs [] h = ([], refl, tt)
  each-Pairs (x ∷ xs) ((k, e), h) =
      let (ys, q, p) = each-Pairs xs h in ((k, x) ∷ ys, rw (e, q), (e, refl, p))

  In-Pairs :
      (y : Key × Json) (xs : List Json) (ys : List (Key × Json))
      → Pairs xs ys
      → In y ys
      → In y.1 xs × (with_key py field y.1 ≡ ok y)
  In-Pairs y [] [] p m = absurd m
  In-Pairs y [] (z ∷ ys) p m = absurd p
  In-Pairs y (x ∷ xs) [] p m = absurd p
  In-Pairs y (x ∷ xs) (z ∷ ys) (e, q, p) (inl s) = (
    inl (ap (λ (v : Key × Json). v.1) s ∙ sym q),
    subst (λ (v : Key × Json). with_key py field v.1 ≡ ok v) (sym s)
        (subst (λ (j : Json). with_key py field j ≡ ok z) q e),
  )
  In-Pairs y (x ∷ xs) (z ∷ ys) (e, q, p) (inr m) = let (i, w) = In-Pairs y xs ys p m in (inr i, w)

  AtMost-Pairs :
      (best : Key) (xs : List Json) (ys : List (Key × Json))
      → Pairs xs ys
      → All (λ y. key_lt best y.0 ≡ false) ys
      → All (AtMost best) xs
  AtMost-Pairs best [] [] p h = tt
  AtMost-Pairs best [] (z ∷ ys) p h = absurd p
  AtMost-Pairs best (x ∷ xs) [] p h = absurd p
  AtMost-Pairs best (x ∷ xs) (z ∷ ys) (e, q, p) (l, h) =
      ((z.0, e ∙ ap (λ (j : Json). ok (z.0, j)) (sym q), l), AtMost-Pairs best xs ys p h)

  pub newest_by-IsNewest :
      (first : Json) (rest : List Json)
      → All Keyed (first ∷ rest)
      → (best : Key) × (newest : Json) × (newest_by py field first rest ≡ ok (best, newest))
        × (with_key py field newest ≡ ok (best, newest))
        × In newest (first ∷ rest)
        × All (AtMost best) (first ∷ rest)
  unfolding newest_by
  newest_by-IsNewest first rest ((k, e), h) =
      let (ys, q, p) = each-Pairs rest h in
      let r : Key × Json = max_from (k, first) ys in
      let all : Pairs (first ∷ rest) ((k, first) ∷ ys) = (e, refl, p) in
      let (member, keyed) =
        In-Pairs r (first ∷ rest) ((k, first) ∷ ys) all (max_from-In (k, first) r ys refl) in
      (
        r.0,
        r.1,
        rw (e, q),
        keyed,
        member,
        AtMost-Pairs r.0 (first ∷ rest) ((k, first) ∷ ys) all (max_from-ge (k, first) r ys refl),
      )

-- A tag is stable if its name is `v` and three numbers between dots.
module _ (py : Platform) where
  latest_of-nil : latest_of py [] ≡ raise (value_error no_stable_tag)
  unfolding latest_of
  latest_of-nil = refl

  pub latest_of-IsNewest :
      (first : Json) (rest : List Json)
      → All (Keyed py name_field) (first ∷ rest)
      → (newest : Json) × (latest_of py (first ∷ rest) ≡ ok newest)
        × IsNewest py name_field newest (first ∷ rest)
  unfolding latest_of
  latest_of-IsNewest first rest h =
      let (best, newest, e, k, m, a) = newest_by-IsNewest py name_field first rest h in
      (newest, rw e, (best, k, m, a))

  module _ (law : IsLawful py) where
    -- The tag is an object with a text for its name, of no more characters than `int` takes digits.
    abbrev pub Named : Json → Type 0
    Named tag = (name : Text) × (text_at name_field tag ≡ ok name) × (length name ≤ max_digits)

    Named-Decides : (tag : Json) → Named tag → Decides (is_stable_tag py) tag
    unfolding is_stable_tag
    Named-Decides tag (name, e, _) = (fullmatch (tag_pattern py) name, rw e)

    Keyed-of_stable :
        (tag : Json) → Named tag → is_stable_tag py tag ≡ ok true → Keyed py name_field tag
    unfolding is_stable_tag with_key
    Keyed-of_stable tag (name, e, short) h =
        let m : fullmatch (tag_pattern py) name ≡ true = ground arith in
        let (k, q) = version_key-tag py law name short m in (k, rw (e, q))

    -- No tag that passes has a greater version than this one, which passes too.
    abbrev pub IsLatest : Json → List Json → Type 0
    IsLatest tag tags =
        In tag tags
        × (is_stable_tag py tag ≡ ok true)
        × ((best : Key) × (with_key py name_field tag ≡ ok (best, tag))
            × ((other : Json)
                → In other tags
                → is_stable_tag py other ≡ ok true
                → AtMost py name_field best other))

    Named-Keyed :
        (tags stable : List Json)
        → All Named tags
        → AreKept (is_stable_tag py) tags stable
        → All (Keyed py name_field) stable
    Named-Keyed tags stable named kept = All-of_forall (Keyed py name_field) stable λ tag m.
        let (i, s) = (kept tag).0 m in Keyed-of_stable tag (All-In Named tag tags named i) s

    none_stable :
        (tags : List Json)
        → All Named tags
        → AreKept (is_stable_tag py) tags []
        → (tag : Json) → In tag tags
        → is_stable_tag py tag ≡ ok false
    none_stable tags named kept tag m =
        let (b, e) = Named-Decides tag (All-In Named tag tags named m) in
        elim (Bool-cases b) [ inl t ↦ absurd ((kept tag).1 (m, e ∙ ap ok t)) | inr f ↦ e ∙ ap ok f ]

    -- The newest of the kept tags is the latest of all.
    IsLatest-of_newest :
        (tag : Json) (tags stable : List Json)
        → AreKept (is_stable_tag py) tags stable
        → IsNewest py name_field tag stable
        → IsLatest tag tags
    IsLatest-of_newest tag tags stable kept (best, k, m, a) =
        let (i, s) = (kept tag).0 m in
        (
          i,
          s,
          (
            best,
            k,
            λ other j t. All-In (AtMost py name_field best) other stable a ((kept other).1 (j, t)),
          ),
        )

    latest_of-IsLatest :
        (tags stable : List Json)
        → All Named tags
        → AreKept (is_stable_tag py) tags stable
        → ((latest_of py stable ≡ raise (value_error no_stable_tag))
            × ((tag : Json) → In tag tags → is_stable_tag py tag ≡ ok false))
          ⊎ ((tag : Json) × (latest_of py stable ≡ ok tag) × IsLatest tag tags)
    latest_of-IsLatest tags [] named kept = inl (latest_of-nil, none_stable tags named kept)
    latest_of-IsLatest tags (first ∷ rest) named kept =
        let (newest, q, n) =
          latest_of-IsNewest first rest (Named-Keyed tags (first ∷ rest) named kept) in
        inr (newest, q, IsLatest-of_newest newest tags (first ∷ rest) kept n)

    -- For tags that all have a name of at most 4300 characters: either no name is `v` and three numbers,
    -- and `no_stable_tag` is raised, or a tag of the list with such a name is returned, and no other
    -- such tag has a greater version.
    pub latest_stable_tag_lem :
        (tags : List Json)
        → All Named tags
        → ((latest_stable_tag py tags ≡ raise (value_error no_stable_tag))
            × ((tag : Json) → In tag tags → is_stable_tag py tag ≡ ok false))
          ⊎ ((tag : Json) × (latest_stable_tag py tags ≡ ok tag) × IsLatest tag tags)
    unfolding latest_stable_tag
    latest_stable_tag_lem tags named =
        let (stable, e, kept) = keep-AreKept (is_stable_tag py) tags (
          All-of_forall (Decides (is_stable_tag py)) tags
            λ tag m. Named-Decides tag (All-In Named tag tags named m)) in
        rw e (latest_of-IsLatest tags stable named kept)
