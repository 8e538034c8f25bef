-- ===== src/Examples/Exits.antt =====
-- The test of the exit, on machines on which every command ends.
use landscape_openwrt.Base.{
  List, Bool-cases, inl, inr, ◌≡◌, refl, [], ◌∷◌, ◌++◌, if◌then◌else◌, strip, runtime_error, Text,
  codes, words, ◌==◌, ok, raise,
}
use landscape_openwrt.Script.{Log, Machine, exited, finished, process}
use landscape_openwrt.Script.Does.{Finishes, Succeeds, Fails}
use landscape_openwrt.FlowExit.{run_with, inside}
use landscape_openwrt.FlowExit.Body.{body}
use landscape_openwrt.FlowExit.Undo.{import_command, commit_command}
use landscape_openwrt.FlowExit.Main.{main}
use landscape_openwrt.FlowExit.Cleanup.{IsClean, stopped, main-IsClean, main-stopped}
use landscape_openwrt.Examples.Compositions.{toy_ip}
use landscape_openwrt.Examples.Bench.{bench, has}

abbrev name : Text
name = codes "c"

-- Every command succeeds without an output.
abbrev calm : Machine
calm = record bench { run = λ log args input. finished (exited 0) [] [] }

calm-Finishes : Finishes calm
calm-Finishes log args input = (exited 0, [], [], refl)

calm-Succeeds : (args : List Text) → Succeeds calm args
calm-Succeeds args log input = ([], [], refl)

exported :
    inside calm name (words "uci export passwall") []
    ≡ (ok [], (inside calm name (words "uci export passwall") []).1)
unfolding inside run_with process strip
exported = refl

abbrev calm_log : Log
calm_log = (inside calm name (words "uci export passwall") []).1

main-IsClean_example :
    (new : Log) × (main calm name toy_ip []
      ≡ ((body calm name toy_ip calm_log).0, new ++ (body calm name toy_ip calm_log).1))
    × IsClean calm name (10 ∷ []) (body calm name toy_ip calm_log).1 new
main-IsClean_example =
    main-IsClean calm calm-Finishes name toy_ip [] [] calm_log
      (calm-Succeeds (import_command calm name)) (calm-Succeeds (commit_command calm name)) exported

-- The import fails.
abbrev torn : Machine
torn = record bench {
  run = λ log args input.
      if has (codes "import") args
      then finished (exited 1) [] (codes "bad")
      else finished (exited 0) [] [];
}

torn-Finishes : Finishes torn
torn-Finishes log args input = elim (Bool-cases (has (codes "import") args)) [
  | inl e ↦ rw e (exited 1, [], codes "bad", refl)
  | inr e ↦ rw e (exited 0, [], [], refl)
]

torn-Fails : Fails torn (import_command torn name) (codes "bad")
unfolding ◌==◌
torn-Fails log input = (exited 1, [], refl, refl)

abbrev torn_log : Log
torn_log = (inside torn name (words "uci export passwall") []).1

torn_exported : inside torn name (words "uci export passwall") [] ≡ (ok [], torn_log)
unfolding inside run_with process strip ◌==◌
torn_exported = refl

main-stopped_example : main torn name toy_ip [] ≡ (
  raise (runtime_error (codes "bad")),
  stopped torn name (10 ∷ []) (body torn name toy_ip torn_log).1,
)
main-stopped_example =
    main-stopped torn torn-Finishes name toy_ip [] [] torn_log (codes "bad") torn-Fails
      torn_exported
