-- ===== src/Upstreams/Main/Complete.antt =====
-- What a run of `main` that returns has left.
use landscape_openwrt.Base.{◌≡◌, List, [], ◌∷◌, ◌++◌, All, In, Text, codes, Bool, ok}
use landscape_openwrt.Json.{Json}
use landscape_openwrt.Platform.{Platform, IsLawful}
use landscape_openwrt.Action.{◌>>◌}
use landscape_openwrt.Action.Laws.{Keeps, >>=-eq-ok, Keeps-then}
use landscape_openwrt.Io.{World, Event, wrote, make_dir, write_bytes}
use landscape_openwrt.Upstreams.Inputs.{Arch, arches}
use landscape_openwrt.Upstreams.Resolve.{resolve}
use landscape_openwrt.Upstreams.Main.{
  Args, decide_build, download, download_arch, download_arches, download_shared, publish_outputs,
  main,
}
use landscape_openwrt.Upstreams.Main.Downloads.{shared_files}
use landscape_openwrt.Upstreams.Main.Grows.{
  IsLasting, download-Keeps, download_arches-Keeps, download_shared-Keeps, publish-Keeps,
}
use landscape_openwrt.Upstreams.Main.Leaves.{
  Leaves, Leaves-bind, Leaves-both, Leaves-map, Took, Took-IsLasting, touch-Leaves, All-IsLasting,
}
use landscape_openwrt.Upstreams.Main.Left.{
  IsLeft, IsArchLeft, IsLeft-IsLasting, IsArchLeft-IsLasting, download-Leaves, download_arch-Leaves,
}

module _ (py : Platform) where
  -- The state, the files that all architectures share, and those of each.
  abbrev pub IsComplete : Json → List Event → Type 0
  IsComplete state log =
      In (wrote (codes "build/upstream.json") (py.encode (py.dumps_indented state ++ (10 ∷ []))))
        log
      × All (λ (f : Text × Text). IsLeft py state f.0 f.1 log) shared_files
      × All (λ arch. IsArchLeft py state arch log) arches

module _ (py : Platform) (law : IsLawful py) where
  download_arches-Leaves :
      (state : Json) (list : List Arch)
      → Leaves
          (λ log. All (λ arch. IsArchLeft py state arch log) list)
          (download_arches py state list)
  unfolding download_arches
  download_arches-Leaves state [] = λ a w v h. tt
  download_arches-Leaves state (arch ∷ more) =
      let First = IsArchLeft py state arch in
      Leaves-both First (λ log. All (λ other. IsArchLeft py state other log) more)
        (download_arch py state arch) _ (download_arch-Leaves py law state arch)
        (λ _. download_arches-Keeps py First (IsArchLeft-IsLasting py state arch) state more)
        (λ _. download_arches-Leaves state more)

  download_shared-Leaves :
      (state : Json)
      → Leaves
          (λ log. All (λ (f : Text × Text). IsLeft py state f.0 f.1 log) shared_files)
          (download_shared py state)
  unfolding download_shared
  download_shared-Leaves state =
      let App = IsLeft py state (codes "passwall") (codes "build/shared/passwall.apk") in
      let I18n = IsLeft py state (codes "passwall_i18n") (codes "build/shared/passwall-zh.apk") in
      let Key =
        IsLeft py state (codes "dependency_key") (codes "build/shared/passwall-build.pem") in
      let Done = λ (log : List Event). Unit {0} in
      let app_lasts =
        IsLeft-IsLasting py state (codes "passwall") (codes "build/shared/passwall.apk") in
      let i18n_lasts =
        IsLeft-IsLasting py state (codes "passwall_i18n") (codes "build/shared/passwall-zh.apk") in
      Leaves-bind (λ log. App log × (I18n log × (Key log × Done log)))
        (make_dir py (codes "build/shared")) _
        λ _.
          Leaves-both App (λ log. I18n log × (Key log × Done log))
            (download py state (codes "passwall") _) _
            (download-Leaves py law state (codes "passwall") _)
            (λ _.
              Keeps-then (λ (u : World). App u.log) (download py state (codes "passwall_i18n") _) _
                (download-Keeps py App app_lasts state (codes "passwall_i18n") _)
                (Keeps-then (λ (u : World). App u.log)
                  (download py state (codes "dependency_key") _) _
                  (download-Keeps py App app_lasts state (codes "dependency_key") _) (λ u k. k)))
            (λ _.
              Leaves-both I18n (λ log. Key log × Done log)
                (download py state (codes "passwall_i18n") _) _
                (download-Leaves py law state (codes "passwall_i18n") _)
                (λ _.
                  Keeps-then (λ (u : World). I18n u.log)
                    (download py state (codes "dependency_key") _) _
                    (download-Keeps py I18n i18n_lasts state (codes "dependency_key") _) (λ u k. k))
                (λ _.
                  Leaves-both Key Done (download py state (codes "dependency_key") _) _
                    (download-Leaves py law state (codes "dependency_key") _) (λ _ u k. k)
                    (λ _ b u x k. tt)))

  arches-Keeps :
      (P : List Event → Type 0)
      → IsLasting P
      → (state : Json) (build : Bool)
      → Keeps
          (λ (w : World). P w.log)
          (download_arches py state arches >> publish_outputs py state build)
  arches-Keeps P lasting state build =
      Keeps-then (λ (w : World). P w.log) (download_arches py state arches) _
        (download_arches-Keeps py P lasting state arches) (publish-Keeps py P lasting state build)

  all-Keeps :
      (P : List Event → Type 0)
      → IsLasting P
      → (state : Json) (build : Bool)
      → Keeps
          (λ (w : World). P w.log)
          (download_shared py state
            >> (download_arches py state arches >> publish_outputs py state build))
  all-Keeps P lasting state build =
      Keeps-then (λ (w : World). P w.log) (download_shared py state) _
        (download_shared-Keeps py P lasting state) (arches-Keeps P lasting state build)

  -- The part of `main` that writes.
  build-IsComplete :
      (state : Json) (build : Bool)
      → Leaves (IsComplete py state) (
          write_bytes py
            (codes "build/upstream.json")
            (py.encode (py.dumps_indented state ++ (10 ∷ [])))
          >> (download_shared py state
              >> (download_arches py state arches >> publish_outputs py state build)))
  build-IsComplete state build =
      let event =
        wrote (codes "build/upstream.json") (py.encode (py.dumps_indented state ++ (10 ∷ []))) in
      let Shared =
        λ (log : List Event). All (λ (f : Text × Text). IsLeft py state f.0 f.1 log) shared_files in
      let Arches = λ (log : List Event). All (λ arch. IsArchLeft py state arch log) arches in
      let Done = λ (log : List Event). Unit {0} in
      Leaves-map (λ log. Took event log × (Shared log × (Arches log × Done log)))
        (IsComplete py state) _
        (λ log left. let (took, (shared, (each, _))) = left in (took, shared, each))
        (Leaves-both (Took event) (λ log. Shared log × (Arches log × Done log)) (write_bytes py _ _)
          _ (touch-Leaves py _ event _)
          (λ _. all-Keeps (Took event) (Took-IsLasting event) state build)
          (λ _.
            Leaves-both Shared (λ log. Arches log × Done log) (download_shared py state) _
              (download_shared-Leaves state)
              (λ _.
                arches-Keeps Shared
                  (All-IsLasting (λ (f : Text × Text). IsLeft py state f.0 f.1) shared_files
                    (λ f. IsLeft-IsLasting py state f.0 f.1))
                  state build)
              (λ _.
                Leaves-both Arches Done (download_arches py state arches) _
                  (download_arches-Leaves state arches)
                  (λ _.
                    publish-Keeps py Arches
                      (All-IsLasting (λ arch. IsArchLeft py state arch) arches
                        (λ arch. IsArchLeft-IsLasting py state arch))
                      state build)
                  (λ _ b c d e. tt))))

  -- Whatever the network answers, a run that returns has resolved a state and left all of the build's
  -- inputs: the state, the shared files, and for both architectures the inputs of the install layer and
  -- the downloads, each with the SHA-256 that the state names for it, and a handler that can be executed.
  pub main-IsComplete :
      (args : Args) (w v : World)
      → main py args w ≡ (ok tt, v)
      → (state : Json) × (u : World) × (resolve py w ≡ (ok state, u)) × IsComplete py state v.log
  unfolding main
  main-IsComplete args w v h =
      let (state, u, resolved, rest) = >>=-eq-ok (resolve py) _ w h in
      (
        state,
        u,
        resolved,
        Leaves-bind (IsComplete py state) (decide_build py args state) _
            (λ build.
              Leaves-bind (IsComplete py state) (make_dir py _) _
                (λ _. build-IsComplete state build))
            tt u v rest,
      )
