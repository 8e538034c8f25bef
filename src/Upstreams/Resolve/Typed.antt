-- ===== src/Upstreams/Resolve/Typed.antt =====
-- What the resolved state is.
use landscape_openwrt.Base.{
  ◌&◌, ok-inj, ◌≡◌, refl, sym, ap, ◌∙◌, subst, true, List, [], ◌∷◌, ◌++◌, Text, codes, ◌==◌, ok,
  >>=-eq-ok,
}
use landscape_openwrt.Base.Dict
use landscape_openwrt.Base.Dict.{Dict, lookup-insert}
use landscape_openwrt.Regex.{fullmatch, times}
use landscape_openwrt.Json.{
  Json, Fields, end, field, str, obj, of_dict, index, index-of_dict, as_text,
}
use landscape_openwrt.Json.Shape.{
  lacks, HasShape, AreKind, same_keys, same_keys-HasShape, insert-HasShape, IsText, IsObject,
}
use landscape_openwrt.Platform.{Platform, IsLawful}
use landscape_openwrt.Action.Laws.{
  Ensures, Ensures-bind, Ensures-then, Ensures-lift, Ensures-pure, lift-eq-ok,
}
use landscape_openwrt.Upstreams.Digest.{hex_pattern, sha256_pattern}
use landscape_openwrt.Upstreams.Digest.Checksum.{IsDigest}
use landscape_openwrt.Upstreams.Digest.Laws.{digest_of-matches}
use landscape_openwrt.Upstreams.Version.{text_at}
use landscape_openwrt.Upstreams.Release.{tag_field}
use landscape_openwrt.Upstreams.Inputs.{Arch, arches, resolve_arch_inputs}
use landscape_openwrt.Upstreams.Inputs.Shape.{inputs_shape, resolve_arch_inputs-HasShape}
use landscape_openwrt.Upstreams.State.{inputs_digest, digest_key, arches_key, signals, select_keys}
use landscape_openwrt.Upstreams.State.Signals.{inputs_digest-insert}
use landscape_openwrt.Upstreams.Resolve.{
  source_url, key_url, key_sha256, bare_digest, api_headers, source_revision, state_fields,
  resolve_base, resolve_passwall, resolve_landscape, check_key, resolve_arches, seal_state, resolve,
}
use landscape_openwrt.Upstreams.Resolve.Packages.{
  AreOfficial, text_at-IsText, bare_digest-IsChecksum, resolve_passwall-AreOfficial,
}
use landscape_openwrt.Upstreams.Resolve.Shapes.{
  arch_shape, arches_shape, arches_of, AreFields, fields_shape, IsState,
}

text : (s : Text) → IsText (str s)
text s = (s, refl)

key_IsChecksum : fullmatch hex_pattern key_sha256 ≡ true
unfolding fullmatch times
key_IsChecksum = refl

module _ (py : Platform) (law : IsLawful py) where
  state_fields-HasShape :
      (base : Json × Text) (packages : Json × Json × Json × Text) (tag revision : Text)
      (fields : Dict Json)
      → AreOfficial py packages
      → state_fields py base packages tag revision ≡ ok fields
      → (commit : Json) × HasShape (fields_shape commit) fields
  unfolding state_fields same_keys ◌==◌
  state_fields-HasShape (base, version) (release, app, i18n, app_version) tag revision fields
        (app_ok, i18n_ok) h =
      let (commit, _, h0) = >>=-eq-ok (index base (codes "commit")) _ h in
      let (sha, _, h1) = >>=-eq-ok (index commit (codes "sha")) _ h0 in
      let (pw_tag, e2, h2) = >>=-eq-ok (index release tag_field) _ h1 in
      let (app_url, e3, h3) = >>=-eq-ok (index app (codes "browser_download_url")) _ h2 in
      let (app_sha, e4, h4) = >>=-eq-ok (bare_digest app) _ h3 in
      let (i18n_url, e5, h5) = >>=-eq-ok (index i18n (codes "browser_download_url")) _ h4 in
      let (i18n_sha, e6, h6) = >>=-eq-ok (bare_digest i18n) _ h5 in
      (
        sha,
        same_keys-HasShape (fields_shape sha) fields
            (ap (same_keys (fields_shape sha)) (sym (ok-inj _ fields h6)))
            (subst (AreKind (fields_shape sha)) (ok-inj _ fields h6) (
              text version
              & refl
              & text key_url
              & (key_sha256, refl, key_IsChecksum)
              & text_at-IsText tag_field release app_ok.tag_eq e2
              & text app_version
              & text_at-IsText (codes "browser_download_url") app app_ok.url_eq e3
              & bare_digest-IsChecksum py release _ _ app app_ok e4
              & text_at-IsText (codes "browser_download_url") i18n i18n_ok.url_eq e5
              & bare_digest-IsChecksum py release _ _ i18n i18n_ok e6
              & text tag
              & text revision
              & text py.now
              & tt)),
      )

  resolve_arch-IsObject :
      (inputs : Dict Json)
      → HasShape inputs_shape inputs
      → (source : Text)
      → IsObject arch_shape
          (obj (of_dict (Dict.insert (codes "handler_source_url") (str source) inputs)))
  unfolding ◌==◌ lacks
  resolve_arch-IsObject inputs h source = (
    _,
    refl,
    insert-HasShape inputs_shape (codes "handler_source_url") (str source) IsText inputs refl h
        (source, refl),
  )

  resolve_arches-AreFields :
      (version : Text) (release : Json) (tag : Text) (list : List Arch)
      → Ensures (AreFields (arches_of list)) (resolve_arches py version release tag list)
  unfolding resolve_arches of_dict
  resolve_arches-AreFields version release tag [] = Ensures-pure (AreFields []) end ([], refl, refl)
  resolve_arches-AreFields version release tag (arch ∷ more) =
      let wanted = AreFields (arches_of (arch ∷ more)) in
      Ensures-bind wanted (resolve_arch_inputs py version release arch) _ λ inputs u v e.
        Ensures-bind wanted (resolve_arches py version release tag more) _ λ rest w x f.
          let (d, same, h) = resolve_arches-AreFields version release tag more rest w x f in
          Ensures-pure wanted _ (
            _,
            ap
                (field arch.arch_name (
                  obj (
                    of_dict
                      (Dict.insert (codes "handler_source_url") (str (source_url tag)) inputs))))
                same,
            (
              _,
              d,
              refl,
              resolve_arch-IsObject inputs
                  (resolve_arch_inputs-HasShape py law version release arch inputs u v e)
                  (source_url tag),
              h,
            ),
          )

  inputs_digest-matches :
      (state : Json) (digest : Text)
      → inputs_digest py state ≡ ok digest
      → fullmatch sha256_pattern digest ≡ true
  unfolding inputs_digest
  inputs_digest-matches state digest h =
      let (base, _, q) = >>=-eq-ok (select_keys state signals) _ h in
      ap (fullmatch sha256_pattern) (sym (ok-inj _ digest q)) ∙ digest_of-matches py law _

  sealed-IsState :
      (commit : Json) (fields : Dict Json) (digest : Text)
      → HasShape (fields_shape commit ++ (codes "arches", IsObject arches_shape) ∷ []) fields
      → inputs_digest py (obj (of_dict fields)) ≡ ok digest
      → IsState py (obj (of_dict (Dict.insert digest_key (str digest) fields)))
  unfolding ◌==◌ lacks text_at as_text
  sealed-IsState commit fields digest h e = (
    (
      commit,
      (
        _,
        refl,
        insert-HasShape (fields_shape commit ++ (codes "arches", IsObject arches_shape) ∷ [])
            digest_key (str digest) IsDigest fields refl h
            (digest, refl, inputs_digest-matches _ digest e),
      ),
    ),
    (
      digest,
      rw (index-of_dict, lookup-insert) refl,
      inputs_digest-insert py digest_key (str digest) fields
            (refl, (refl, (refl, (refl, (refl, tt)))))
          ∙ e,
    ),
  )

  seal_state-IsState :
      (fields : Dict Json) (nested : Fields) (state : Json)
      → (commit : Json) × HasShape (fields_shape commit) fields
      → AreFields arches_shape nested
      → seal_state py fields nested ≡ ok state
      → IsState py state
  unfolding seal_state ◌==◌ lacks
  seal_state-IsState fields nested state (commit, h) (d, same, k) sealed =
      let (digest, e, q) =
        >>=-eq-ok (inputs_digest py (obj (of_dict (Dict.insert arches_key (obj nested) fields)))) _
          sealed in
      subst (IsState py) (ok-inj _ state q) (
        sealed-IsState commit (Dict.insert arches_key (obj nested) fields) digest
          (insert-HasShape (fields_shape commit) arches_key (obj nested) (IsObject arches_shape)
            fields refl h (d, ap obj same, k))
          e)

  -- Whatever the network answers, a state that is resolved has the fields of `state_shape`: texts, the
  -- checksums of 64 hexadecimal digits, the inputs of the two architectures, and an `inputs_digest`,
  -- which is its own.
  pub resolve-IsState : Ensures (IsState py) (resolve py)
  unfolding resolve
  resolve-IsState =
      let headers = api_headers (py.environ (codes "GH_TOKEN")) in
      Ensures-bind (IsState py) (resolve_base py headers) _ λ base _ _ _.
        Ensures-bind (IsState py) (resolve_passwall py headers) _ λ packages u v e.
          Ensures-bind (IsState py) (resolve_landscape py headers) _ λ landscape _ _ _.
            Ensures-then (IsState py) (check_key py) _ (
              Ensures-lift (IsState py) (source_revision py) _ λ revision _.
                Ensures-lift (IsState py) (state_fields py base packages landscape.1 revision) _
                  λ fields f.
                    Ensures-bind (IsState py)
                      (resolve_arches py base.1 landscape.0 landscape.1 arches) _
                      λ nested w x g state y z h.
                        seal_state-IsState fields nested state
                          (state_fields-HasShape base packages landscape.1 revision fields
                            (resolve_passwall-AreOfficial py headers packages u v e) f)
                          (resolve_arches-AreFields base.1 landscape.0 landscape.1 arches nested w x
                            g)
                          (lift-eq-ok (seal_state py fields nested) y h).0)
