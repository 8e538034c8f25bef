-- ===== src/Upstreams/Main/Publish.antt =====
-- The outputs of `main` only append to a file and print.
use landscape_openwrt.Base.{
  ◌≡◌, refl, inl, inr, Bool, Option, none, some, List, [], ◌∷◌, In, Text, codes, ok,
}
use landscape_openwrt.Base.Dict.{Dict}
use landscape_openwrt.Json.{Json, null, bool, num, str, arr, obj}
use landscape_openwrt.Platform.{Platform}
use landscape_openwrt.Action.Laws.{Keeps, Keeps-then, Keeps-lift}
use landscape_openwrt.Action.{◌>>◌}
use landscape_openwrt.Io.{World, Event, appended, broke_off, printed, append_text}
use landscape_openwrt.Io.Disk.{touch-Keeps}
use landscape_openwrt.Upstreams.Registry.{formatted}
use landscape_openwrt.Upstreams.State.{flatten_outputs}
use landscape_openwrt.Upstreams.Main.{
  output_line, with_build, write_output, write_outputs, append_outputs, publish_outputs,
}

module _ (py : Platform) (P : List Event → Type 0) (path : Text)
    (opens : (log : List Event) → P log → P (appended path [] ∷ log))
    (fails : (log : List Event) → P log → P (broke_off path ∷ log)) where
  abbrev Holds : World → Type 0
  Holds w = P w.log

  -- The line of an output may be appended.
  abbrev MayFollow : Text → Json → Type 0
  MayFollow key value =
      (log : List Event) → P log → P (appended path (output_line key (formatted py value)) ∷ log)

  write_output-Keeps :
      (key : Text) (value : Json)
      → MayFollow key value
      → Keeps Holds (write_output py path key value)
  unfolding write_output
  write_output-Keeps key null may = λ w h. h
  write_output-Keeps key (str s) may = touch-Keeps py path _ (broke_off path ∷ []) P may fails
  write_output-Keeps key (bool b) may = touch-Keeps py path _ (broke_off path ∷ []) P may fails
  write_output-Keeps key (num n) may = touch-Keeps py path _ (broke_off path ∷ []) P may fails
  write_output-Keeps key (arr js) may = touch-Keeps py path _ (broke_off path ∷ []) P may fails
  write_output-Keeps key (obj fs) may = touch-Keeps py path _ (broke_off path ∷ []) P may fails

  write_outputs-Keeps :
      (outputs : Dict Json)
      → ((key : Text) (value : Json) → In (key, value) outputs → MayFollow key value)
      → Keeps Holds (write_outputs py path outputs)
  unfolding write_outputs
  write_outputs-Keeps [] may = λ w h. h
  write_outputs-Keeps ((key, value) ∷ more) may =
      Keeps-then Holds (write_output py path key value) _
        (write_output-Keeps key value (may key value (inl refl)))
        (write_outputs-Keeps more (λ k v m. may k v (inr m)))

  open_outputs-Keeps :
      (outputs : Dict Json)
      → ((key : Text) (value : Json) → In (key, value) outputs → MayFollow key value)
      → Keeps Holds (append_text py path [] >> write_outputs py path outputs)
  open_outputs-Keeps outputs may =
      Keeps-then Holds (append_text py path []) _
        (touch-Keeps py path (appended path []) (broke_off path ∷ []) P opens fails)
        (write_outputs-Keeps outputs may)

-- A property that the lines of the outputs keep, if the environment names a file for them.
module _ (py : Platform) (P : List Event → Type 0) (state : Json)
    (opens : (path : Text) (log : List Event)
      → py.environ (codes "GITHUB_OUTPUT") ≡ some path
      → P log
      → P (appended path [] ∷ log))
    (fails : (path : Text) (log : List Event)
      → py.environ (codes "GITHUB_OUTPUT") ≡ some path
      → P log
      → P (broke_off path ∷ log))
    (appends : (path key : Text) (value : Json) (flat : Dict Json) (build : Bool) (log : List Event)
      → py.environ (codes "GITHUB_OUTPUT") ≡ some path
      → flatten_outputs state ≡ ok flat
      → In (key, value) (with_build py build flat)
      → P log
      → P (appended path (output_line key (formatted py value)) ∷ log))
    (prints : (text : Text) (log : List Event) → P log → P (printed text ∷ log)) where
  append_outputs-Keeps :
      (file : Option Text) (flat : Dict Json) (build : Bool)
      → py.environ (codes "GITHUB_OUTPUT") ≡ file
      → flatten_outputs state ≡ ok flat
      → Keeps (λ (w : World). P w.log) (append_outputs py file (with_build py build flat))
  unfolding append_outputs
  append_outputs-Keeps (some (c ∷ path)) flat build named e =
      open_outputs-Keeps py P (c ∷ path) (λ log. opens (c ∷ path) log named)
        (λ log. fails (c ∷ path) log named) _
        (λ key value m log. appends (c ∷ path) key value flat build log named e m)
  append_outputs-Keeps (some []) flat build named e = λ w h. h
  append_outputs-Keeps none flat build named e = λ w h. h

  pub publish_outputs-Keeps :
      (build : Bool) → Keeps (λ (w : World). P w.log) (publish_outputs py state build)
  unfolding publish_outputs
  publish_outputs-Keeps build =
      let Holds = λ (w : World). P w.log in
      Keeps-lift Holds (flatten_outputs state) _ λ flat e.
        Keeps-then Holds
          (append_outputs py (py.environ (codes "GITHUB_OUTPUT")) (with_build py build flat)) _
          (append_outputs-Keeps _ flat build refl e) (λ w h. prints _ w.log h)
