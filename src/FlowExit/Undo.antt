-- ===== src/FlowExit/Undo.antt =====
-- The `finally` block of `main` of scripts/test-flow-exit.py.
use landscape_openwrt.Base.{
  Option, none, some, List, [], ◌∷◌, ◌++◌, if◌then◌else◌, Text, codes, words, ok,
}
use landscape_openwrt.Action.{pure, ◌>>=◌, ◌>>◌}
use landscape_openwrt.Script.{terminated, killed, Script, Machine, note, wrote, under}
use landscape_openwrt.FlowExit.{wan, wan_link, lan_link, bridge, run, run_with, attempt, exec_args}
use landscape_openwrt.FlowExit.Body.{root, exit_name, processes_of}

module _ (m : Machine) (name : Text) where
  -- The commands of the `finally` block that may fail.
  abbrev pub build_file : Text → Text
  build_file name = codes "build/smoke-" ++ name

  unfoldable pub save_output : List Text → Text → Script (Unit {0})
  save_output args path = do (_, out, _) ← attempt m args; note (wrote path out)

  unfoldable pub save_both : List Text → Text → Script (Unit {0})
  save_both args path = do (_, out, err) ← attempt m args; note (wrote path (out ++ err))

  abbrev pub copy_text : Text → Option Text → Script (Unit {0})
  copy_text path (some text) = note (wrote path text)
  copy_text path none = pure tt

  -- A log that is there is copied.
  unfoldable pub copy_log : Text → Script (Unit {0})
  copy_log file log =
      copy_text (build_file (codes "exit-" ++ file)) (m.file log (under (root m name) file)) log

  abbrev pub tc_file : Text → Text
  tc_file interface = build_file (codes "tc-" ++ (interface ++ codes ".log"))

  unfoldable pub save_logs : Script (Unit {0})
  save_logs = do
    save_output
        (exec_args name
          (words "sh -c" ++ codes "cat /tmp/log/passwall.log 2>/dev/null || true" ∷ []))
        (build_file (codes "passwall.log"))
    save_output (exec_args name (words "nft list ruleset")) (build_file (codes "passwall-nft.log"))
    save_both (words "docker logs" ++ exit_name m name ∷ []) (build_file (codes "exit-node.log"))
    copy_log (codes "target.log")
    copy_log (codes "access.log")
    copy_log (codes "error.log")
    copy_log (codes "capture.log")
    save_both (words "tc -s filter show dev" ++ lan_link ∷ words "ingress") (tc_file lan_link)
    save_both (words "tc -s filter show dev" ++ bridge ∷ words "ingress") (tc_file bridge)

  abbrev pub stop_command : List Text
  stop_command = exec_args name (words "/etc/init.d/passwall stop")

  abbrev pub import_command : List Text
  import_command = exec_args name (words "uci import passwall")

  abbrev pub commit_command : List Text
  commit_command = exec_args name (words "uci commit passwall")

  unfoldable pub restore : Text → Script (Unit {0})
  restore backup = do
    attempt m stop_command
    run_with m import_command (some backup)
    run m commit_command
    pure tt

  abbrev pub delete_filter : Text → Text → Text → List Text
  delete_filter interface protocol pref =
      words "tc filter del dev"
      ++ (interface ∷ words "ingress protocol" ++ (protocol ∷ codes "pref" ∷ pref ∷ []))

  unfoldable pub attempt_all : List (List Text) → Script (Unit {0})
  attempt_all [] = pure tt
  attempt_all (args ∷ more) = do attempt m args; attempt_all more

  abbrev pub filter_commands : List (List Text)
  filter_commands =
      delete_filter lan_link (codes "ip") (codes "20")
      ∷ delete_filter lan_link (codes "ipv6") (codes "21")
      ∷ delete_filter bridge (codes "ip") (codes "20")
      ∷ delete_filter bridge (codes "ipv6") (codes "21")
      ∷ []

  -- `process.terminate()` and the wait for its end, which `process.kill()` forces after ten seconds.
  unfoldable pub end_process : List Text → Script (Unit {0})
  end_process args log =
      if m.ends log args
      then (ok tt, terminated args ∷ log)
      else (ok tt, killed args ∷ terminated args ∷ log)

  unfoldable pub end_processes : List (List Text) → Script (Unit {0})
  end_processes [] = pure tt
  end_processes (args ∷ more) = do end_process args; end_processes more

  abbrev pub end_started : Script (Unit {0})
  end_started log = end_processes (processes_of log) log

  abbrev pub removal_commands : List (List Text)
  removal_commands =
      (words "docker rm -f" ++ exit_name m name ∷ [])
      ∷ (words "ip netns del" ++ wan ∷ [])
      ∷ (words "ip link del" ++ wan_link ∷ [])
      ∷ []

  -- The `finally` block.
  unfoldable pub cleanup : Text → Script (Unit {0})
  cleanup backup = do
    save_logs
    restore backup
    attempt_all filter_commands
    end_started
    attempt_all removal_commands
