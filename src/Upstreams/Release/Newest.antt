-- ===== src/Upstreams/Release/Newest.antt =====
-- What the picked release is.
use landscape_openwrt.Base.{
  ok-inj, ◌≡◌, sym, ◌∙◌, subst, true, List, [], ◌∷◌, In, All, All-In, AreKept, keep-eq-ok, Text,
  Result, ok, each, keep, >>=-eq-ok,
}
use landscape_openwrt.Regex.{Regex}
use landscape_openwrt.Json.{Json}
use landscape_openwrt.Platform.{Platform}
use landscape_openwrt.Upstreams.Version.{Key, with_key, newest_by, text_at, version_key}
use landscape_openwrt.Upstreams.Version.Latest.{Keyed, AtMost, IsNewest, newest_by-IsNewest}
use landscape_openwrt.Upstreams.Release.{
  tag_field, has_tag, is_published, is_newer, newest_of, pick_release, sorted,
}

pair-eq :
    (a c : Json) (b d : List Text)
    → ◌≡◌ {A = Result (Json × List Text)} (ok (a, b)) (ok (c, d))
    → a ≡ c
pair-eq a c b d h = cc

module _ (py : Platform) where
  with_key-Keyed :
      (item : Json) (p : Key × Json) → with_key py tag_field item ≡ ok p → Keyed py tag_field item
  unfolding with_key
  with_key-Keyed item p h =
      let (name, e, h1) = >>=-eq-ok (text_at tag_field item) _ h in
      let (k, f, _) = >>=-eq-ok (version_key py name) _ h1 in (k, rw (e, f))

  each-Keyed :
      (items : List Json) (keyed : List (Key × Json))
      → each (with_key py tag_field) items ≡ ok keyed
      → All (Keyed py tag_field) items
  unfolding each
  each-Keyed [] keyed h = tt
  each-Keyed (item ∷ items) keyed h =
      let (p, e, h1) = >>=-eq-ok (with_key py tag_field item) _ h in
      let (rest, f, _) = >>=-eq-ok (each (with_key py tag_field) items) _ h1 in
      (with_key-Keyed item p e, each-Keyed items rest f)

  newest_by-Keyed :
      (first : Json) (rest : List Json) (r : Key × Json)
      → newest_by py tag_field first rest ≡ ok r
      → All (Keyed py tag_field) (first ∷ rest)
  unfolding newest_by
  newest_by-Keyed first rest r h =
      let (p, e, h1) = >>=-eq-ok (with_key py tag_field first) _ h in
      let (keyed, f, _) = >>=-eq-ok (each (with_key py tag_field) rest) _ h1 in
      (with_key-Keyed first p e, each-Keyed rest keyed f)

  newest_of-IsNewest :
      (stable : List Json) (r : Key × Json)
      → newest_of py stable ≡ ok r
      → IsNewest py tag_field r.1 stable
  unfolding newest_of
  newest_of-IsNewest [] r h = cc
  newest_of-IsNewest (first ∷ rest) r h =
      let (best, newest, e, k, m, a) =
        newest_by-IsNewest py tag_field first rest (newest_by-Keyed first rest r h) in
      let same : (best, newest) ≡ r = ok-inj (best, newest) r (sym e ∙ h) in
      subst (λ (p : Key × Json). IsNewest py tag_field p.1 (first ∷ rest)) same (best, k, m, a)

  -- A release of the list that matches and is published, and no other such release is newer.
  pub record IsNewestStable (pattern : Regex) (releases : List Json) (newest : Json) : Type 0 where
    pub member : In newest releases
    pub matches : has_tag pattern newest ≡ ok true
    pub published : is_published newest ≡ ok true
    pub best : Key
    pub best_eq : with_key py tag_field newest ≡ ok (best, newest)
    pub at_most :
        (other : Json)
        → In other releases
        → has_tag pattern other ≡ ok true
        → is_published other ≡ ok true
        → AtMost py tag_field best other

  IsNewestStable-of_kept :
      (pattern : Regex) (releases matched stable : List Json) (newest : Json)
      → AreKept (has_tag pattern) releases matched
      → AreKept is_published matched stable
      → IsNewest py tag_field newest stable
      → IsNewestStable pattern releases newest
  IsNewestStable-of_kept pattern releases matched stable newest h k (best, e, m, a) =
      let (in_matched, p) = (k newest).0 m in
      let (in_releases, t) = (h newest).0 in_matched in
      record {
        member = in_releases;
        matches = t;
        published = p;
        best = best;
        best_eq = e;
        at_most = λ other i s q.
            All-In (AtMost py tag_field best) other stable a ((k other).1 ((h other).1 (i, s), q));
      }

  -- The release that is picked is a published release of the list whose tag matches the pattern, and no
  -- other such release has a greater version.
  pub pick_release-IsNewestStable :
      (pattern : Regex) (releases : List Json) (newest : Json) (skipped : List Text)
      → pick_release py pattern releases ≡ ok (newest, skipped)
      → IsNewestStable pattern releases newest
  unfolding pick_release
  pick_release-IsNewestStable pattern releases newest skipped h =
      let (matched, e1, h1) = >>=-eq-ok (keep (has_tag pattern) releases) _ h in
      let (stable, e2, h2) = >>=-eq-ok (keep is_published matched) _ h1 in
      let (r, e3, h3) = >>=-eq-ok (newest_of py stable) _ h2 in
      let (newer, e4, h4) = >>=-eq-ok (keep (is_newer py r.0) matched) _ h3 in
      let (tags, e5, h5) = >>=-eq-ok (each (text_at tag_field) newer) _ h4 in
      subst (IsNewestStable pattern releases) (pair-eq r.1 newest (sorted tags) skipped h5) (
        IsNewestStable-of_kept pattern releases matched stable r.1
          (keep-eq-ok (has_tag pattern) releases matched e1)
          (keep-eq-ok is_published matched stable e2) (newest_of-IsNewest stable r e3))
