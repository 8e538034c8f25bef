-- ===== src/Upstreams/Main/Decision.antt =====
-- When a run of `main` builds.
use landscape_openwrt.Base.{
  ◌≡◌, ap, ◌∙◌, inl, inr, Bool, true, false, not, arith, Bool-cases, Text, codes, starts_with,
  remove_prefix, Result, ok, raise,
}
use landscape_openwrt.Base.{>>=-eq-ok as bind-eq-ok}
use landscape_openwrt.Json.{Json}
use landscape_openwrt.Platform.{Platform}
use landscape_openwrt.Io.{World}
use landscape_openwrt.Action.Laws.{>>=-eq-ok}
use landscape_openwrt.Upstreams.Registry.{Registry, open_registry, amd64}
use landscape_openwrt.Upstreams.State.{same_inputs}
use landscape_openwrt.Upstreams.Main.{
  Args, labels_of, build_for, compare_published, settle, decide_build,
}

abbrev pub repository_of : Args → Text
repository_of args = remove_prefix (codes "ghcr.io/") args.image

-- What was read when no build is wanted.
pub record IsUpToDate (py : Platform) (args : Args) (state : Json) (w v : World) : Type 0 where
  pub not_forced : args.force ≡ false
  pub registry : Registry
  pub opened : World
  pub config : Json
  pub digest : Text
  pub labels : Json
  pub reached :
      open_registry py
        (codes "ghcr.io")
        (repository_of args)
        (py.environ (codes "GITHUB_ACTOR"))
        (py.environ (codes "GH_TOKEN"))
        w
      ≡ (ok registry, opened)
  pub read : amd64 py registry (codes "latest") opened ≡ (ok (digest, config), v)
  pub labelled : labels_of config ≡ ok labels
  pub same : same_inputs labels state ≡ ok true

not-false : (b : Bool) → ◌≡◌ {A = Result Bool} (ok (not b)) (ok false) → b ≡ true
not-false b h = ground arith

build_for-false :
    (args : Args) (state config : Json)
    → build_for args config state ≡ ok false
    → (args.force ≡ false)
      × ((labels : Json) × (labels_of config ≡ ok labels) × (same_inputs labels state ≡ ok true))
unfolding build_for
build_for-false args state config h = elim (Bool-cases args.force) [
  | inl f ↦ let h' : ok true ≡ ok false = rw f at h in cc
  | inr f ↦
      let h' = rw f at h in
      let (labels, e, h'') = bind-eq-ok (labels_of config) _ h' in
      let (same, q, last) = bind-eq-ok (same_inputs labels state) _ h'' in
      (f, (labels, e, q ∙ ap ok (not-false same last)))
]

settle-false :
    (args : Args) (r : Result Bool × World) (v : World)
    → settle args r ≡ (ok false, v)
    → r ≡ (ok false, v)
unfolding settle
settle-false args (ok build, w) v h = h
settle-false args (raise e, w) v h = ground arith

module _ (py : Platform) (args : Args) (state : Json) where
  compare_published-false :
      (w v : World)
      → compare_published py args (repository_of args) state w ≡ (ok false, v)
      → IsUpToDate py args state w v
  unfolding compare_published
  compare_published-false w v h =
      let (registry, u, e, h') =
        >>=-eq-ok
          (open_registry py (codes "ghcr.io") (repository_of args)
            (py.environ (codes "GITHUB_ACTOR")) (py.environ (codes "GH_TOKEN")))
          _ w h in
      let (found, u', e', h'') = >>=-eq-ok (amd64 py registry (codes "latest")) _ u h' in
      let b : build_for args found.1 state ≡ ok false = cc in
      let v-eq : u' ≡ v = cc in
      let (f, (labels, l, s)) = build_for-false args state found.1 b in
      record {
        not_forced = f;
        registry = registry;
        opened = u;
        config = found.1;
        digest = found.0;
        labels = labels;
        reached = e;
        read = rw (← v-eq) e';
        labelled = l;
        same = s;
      }

  -- A run goes without a build only if it is not forced, the published image was read, and its label
  -- holds the digest of the new state.
  pub decide_build-false :
      (w v : World) → decide_build py args state w ≡ (ok false, v) → IsUpToDate py args state w v
  unfolding decide_build
  decide_build-false w v h = elim (Bool-cases (starts_with args.image (codes "ghcr.io/"))) [
    | inl g ↦ compare_published-false w v (settle-false args _ v (rw g at h))
    | inr g ↦ ground arith
  ]
