-- ===== src/Upstreams/Registry/Laws.antt =====
-- What a registry's answer has passed when it is returned.
use landscape_openwrt.Base.{
  ◌≡◌, refl, sym, ap, ◌∙◌, Bool, true, false, arith, Text, Bytes, codes, starts_with, ok, require,
  Reason, wrong_platform,
}
use landscape_openwrt.Json.{Json, str, index}
use landscape_openwrt.Platform.{Platform, IsLawful}
use landscape_openwrt.Io.{World}
use landscape_openwrt.Action.Laws.{Ensures, Ensures-bind, Ensures-lift, Ensures-pure}
use landscape_openwrt.Upstreams.Http.{load_json}
use landscape_openwrt.Upstreams.Digest.{digest_of, verify_digest}
use landscape_openwrt.Upstreams.Digest.Laws.{verify_digest-eq-ok}
use landscape_openwrt.Upstreams.Registry.{
  Registry, formatted, fetch, named_digest, verify_reference, manifest, platform_manifest,
  platform_config, is_config_for, has_key, select_entry,
}

require-true : (b : Bool) (reason : Reason) → require b reason ≡ ok tt → b ≡ true
require-true b reason h = ground arith

module _ (py : Platform) (law : IsLawful py) (r : Registry) where
  -- The content is JSON bytes with this digest.
  abbrev pub HasDigest : Json → Text → Type 0
  HasDigest content digest =
      (raw : Bytes) × (load_json py raw ≡ ok content) × (digest ≡ digest_of py raw)

  verified :
      (raw : Bytes) (digest : Text)
      → verify_digest py raw (str digest) ≡ ok tt
      → digest ≡ digest_of py raw
  verified raw digest h = ground (arith, (verify_digest-eq-ok py law raw (str digest)).0 h)

  verify_reference-digest :
      (raw : Bytes) (reference : Text)
      → starts_with reference (codes "sha256:") ≡ true
      → verify_reference py r raw (str reference) ≡ ok tt
      → reference ≡ digest_of py raw
  unfolding verify_reference
  verify_reference-digest raw reference e h = verified raw reference (rw e at h)

  -- What a manifest that was asked for has.
  abbrev IsManifest : Json → Json × Text → Type 0
  IsManifest reference (content, digest) =
      HasDigest content digest
      × ((text : Text)
          → reference ≡ str text
          → starts_with text (codes "sha256:") ≡ true
          → text ≡ digest)

  manifest-IsManifest :
      (reference : Json) → Ensures (IsManifest reference) (manifest py r reference)
  unfolding manifest
  manifest-IsManifest reference =
      Ensures-bind (IsManifest reference) (fetch py r (codes "manifests") (formatted py reference))
        _
        λ (raw, headers) _ _ _.
          Ensures-lift (IsManifest reference)
            (verify_digest py raw (str (named_digest py r raw headers))) _
            λ _ own.
              Ensures-lift (IsManifest reference) (verify_reference py r raw reference) _ λ _ asked.
                Ensures-lift (IsManifest reference) (load_json py raw) _ λ content parsed.
                  let named : named_digest py r raw headers ≡ digest_of py raw =
                    verified raw _ own in
                  Ensures-pure (IsManifest reference) (content, named_digest py r raw headers)
                    (
                      (raw, parsed, named),
                      λ text same p.
                          let asked' : verify_reference py r raw (str text) ≡ ok tt =
                            rw same at asked in
                          verify_reference-digest raw text p asked' ∙ sym named,
                    )

  -- A manifest is returned with its own digest, and one that was asked for by digest is that one.
  pub manifest-eq-ok :
      (reference : Text) (w v : World) (content : Json) (digest : Text)
      → manifest py r (str reference) w ≡ (ok (content, digest), v)
      → HasDigest content digest
        × (starts_with reference (codes "sha256:") ≡ true → reference ≡ digest)
  manifest-eq-ok reference w v content digest h =
      let (own, asked) = manifest-IsManifest (str reference) (content, digest) w v h in
      (own, asked reference refl)

  abbrev Digested : Json × Text → Type 0
  Digested (content, digest) = HasDigest content digest

  platform_manifest-HasDigest :
      (reference architecture : Text) (found : Json × Text) (b : Bool)
      → Digested found
      → Ensures Digested (platform_manifest py r reference architecture found b)
  unfolding platform_manifest
  platform_manifest-HasDigest reference architecture found true own =
      Ensures-lift Digested (select_entry architecture found.0) _
        λ digest _ chosen w v h. (manifest-IsManifest digest chosen w v h).0
  platform_manifest-HasDigest reference architecture found false own =
      Ensures-pure Digested found own

  -- What a configuration for an architecture, with the digest of its manifest, has.
  abbrev pub IsConfig : Text → Text × Json → Type 0
  IsConfig architecture (digest, config) =
      (content : Json) × (entry : Json) × (config_digest : Text) × HasDigest content digest
      × (index content (codes "config") ≡ ok entry)
      × (index entry (codes "digest") ≡ ok (str config_digest))
      × HasDigest config config_digest
      × (is_config_for architecture config ≡ ok true)

  platform_config-IsConfig :
      (reference architecture : Text)
      → Ensures (IsConfig architecture) (platform_config py r reference architecture)
  unfolding platform_config
  platform_config-IsConfig reference architecture =
      let P = IsConfig architecture in
      Ensures-bind P (manifest py r (str reference)) _ λ found w u e.
        Ensures-lift P (has_key (codes "manifests") found.0) _ λ is_index _.
          Ensures-bind P (platform_manifest py r reference architecture found is_index) _
            λ chosen w' u' own.
              Ensures-lift P (index chosen.0 (codes "config")) _ λ entry in_content.
                Ensures-lift P (index entry (codes "digest")) _ λ named in_entry.
                  Ensures-bind P (fetch py r (codes "blobs") (formatted py named)) _ λ got _ _ _.
                    Ensures-lift P (verify_digest py got.0 named) _ λ _ checked.
                      Ensures-lift P (load_json py got.0) _ λ config parsed.
                        Ensures-lift P (is_config_for architecture config) _ λ fits fits_eq.
                          Ensures-lift P (require fits wrong_platform) _ λ _ required.
                            Ensures-pure P (chosen.1, config)
                              (
                                chosen.0,
                                entry,
                                digest_of py got.0,
                                platform_manifest-HasDigest reference architecture found is_index
                                    (manifest-IsManifest (str reference) found w u e).0 chosen w' u'
                                    own,
                                in_content,
                                in_entry
                                    ∙ ap ok ((verify_digest-eq-ok py law got.0 named).0 checked),
                                (got.0, parsed, refl),
                                fits_eq ∙ ap ok (require-true fits wrong_platform required),
                              )

  -- A configuration that is returned has the digest that is named in a manifest, the manifest has the
  -- digest that is returned, and the configuration is for Linux on the architecture asked for.
  pub platform_config-eq-ok :
      (reference architecture : Text) (w v : World) (digest : Text) (config : Json)
      → platform_config py r reference architecture w ≡ (ok (digest, config), v)
      → (content : Json) × (entry : Json) × (config_digest : Text) × HasDigest content digest
        × (index content (codes "config") ≡ ok entry)
        × (index entry (codes "digest") ≡ ok (str config_digest))
        × HasDigest config config_digest
        × (is_config_for architecture config ≡ ok true)
  platform_config-eq-ok reference architecture w v digest config h =
      platform_config-IsConfig reference architecture (digest, config) w v h
