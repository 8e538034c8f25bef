-- ===== src/Upstreams/Main/Sound.antt =====
-- What a whole run of `main` leaves on the disk.
use landscape_openwrt.Base.{◌≡◌, ◌⊎◌, Bool, some, In, List, [], ◌∷◌, ◌++◌, Text, Bytes, codes, ok}
use landscape_openwrt.Base.Dict.{Dict}
use landscape_openwrt.Json.{Json}
use landscape_openwrt.Platform.{Platform}
use landscape_openwrt.Io.{Io, World, Event, made_dir, wrote, appended, made_executable, broke_off}
use landscape_openwrt.Upstreams.Registry.{formatted}
use landscape_openwrt.Upstreams.State.{flatten_outputs}
use landscape_openwrt.Upstreams.Resolve.{resolve}
use landscape_openwrt.Upstreams.Main.{output_line, with_build}
use landscape_openwrt.Upstreams.Main.Downloads.{AreAllowed, MayWrite}

-- No file or directory was touched.
abbrev pub IsSilent : List Event → Type 0
IsSilent [] = Unit {0}
IsSilent (made_dir path ∷ log) = ⊥
IsSilent (wrote path content ∷ log) = ⊥
IsSilent (appended path text ∷ log) = ⊥
IsSilent (made_executable path ∷ log) = ⊥
IsSilent (broke_off path ∷ log) = ⊥
IsSilent (_ ∷ log) = IsSilent log

-- What a run may leave that resolved this state: the state itself, the inputs of an install layer, or
-- content with the checksum that the state has for its path.
abbrev pub MayLeave : Platform → Json → Text → Bytes → Type 0
MayLeave py state path content =
    ((path ≡ codes "build/upstream.json")
      × (content ≡ py.encode (py.dumps_indented state ++ (10 ∷ []))))
    ⊎ MayWrite py state path content

-- What it may append, to the file that the environment names for the outputs: nothing, or the line of one
-- of the outputs of the state, or of the decision to build.
abbrev pub MayPublish : Platform → Json → Text → Text → Type 0
MayPublish py state path text =
    (py.environ (codes "GITHUB_OUTPUT") ≡ some path)
    × ((text ≡ [])
        ⊎ ((flat : Dict Json) × (build : Bool) × (key : Text) × (value : Json) × (flatten_outputs
                state
              ≡ ok flat)
            × In (key, value) (with_build py build flat)
            × (text ≡ output_line key (formatted py value))))

-- The run of `main` from a world: `resolve` raised and nothing was touched, or everything that was
-- left is allowed by the state that it returned.
abbrev pub LeavesOnly : Platform → World → List Event → Type 0
LeavesOnly py w log =
    IsSilent log
    ⊎ ((state : Json) × (u : World) × (resolve py w ≡ (ok state, u))
        × AreAllowed (MayLeave py state) (MayPublish py state) log)
