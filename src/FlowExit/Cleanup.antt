-- ===== src/FlowExit/Cleanup.antt =====
-- What the `finally` block of `main` leaves behind, whatever the `try` block did.
use landscape_openwrt.Base.{
  ◌≡◌, refl, ap, ◌∙◌, inl, inr, none, some, List, [], ◌∷◌, ◌++◌, In, Text, words, runtime_error,
  Result, ok, raise,
}
use landscape_openwrt.Action.{continue, after_finally, try_finally, ◌>>◌}
use landscape_openwrt.Script.{Deed, ran, launched, terminated, Log, Machine, process}
use landscape_openwrt.Ip.{Ip}
use landscape_openwrt.FlowExit.{run_with, inside}
use landscape_openwrt.FlowExit.Body.{body, processes_of}
use landscape_openwrt.FlowExit.Undo.{
  save_logs, restore, stop_command, import_command, commit_command, attempt_all, filter_commands,
  removal_commands, end_started, cleanup,
}
use landscape_openwrt.FlowExit.Main.{main}
use landscape_openwrt.Script.Does.{Finishes, Fails, Succeeds}
use landscape_openwrt.Base.{In-of_append, In-of_left, In-of_right, append_assoc}
use landscape_openwrt.Action.Laws.{then-eq, try_finally-eq}
use landscape_openwrt.FlowExit.Steps.{
  attempted, In-ended, In-processes_of, attempt_all-Does, save_logs-Does, end_started-Does,
  restored, restore-Does,
}

append_five :
    (a b c d e log : Log)
    → a ++ (b ++ (c ++ (d ++ (e ++ log)))) ≡ (a ++ (b ++ (c ++ (d ++ e)))) ++ log
append_five a b c d e log = simp append_assoc

module _ (m : Machine) (name : Text) where
  -- What `cleanup` does whatever there is: the settings are restored from the backup, and the filters,
  -- the container, the namespace and the link are removed.
  unfoldable pub undone : Text → List Deed
  undone backup =
      ran (import_command m name) (some backup)
        ∷ ran (commit_command m name) none
        ∷ attempted (filter_commands m name)
      ++ attempted (removal_commands m name)

  -- What `cleanup` adds to a run: what is undone, and a signal to end for every process that was started.
  abbrev pub IsClean : Text → Log → Log → Type 0
  IsClean backup log new =
      ((d : Deed) → In d (undone backup) → In d new)
      × ((args : List Text) → In (launched args) log → In (terminated args) new)

  -- The run behind a cleanup whose import fails.
  abbrev pub stopped : Text → Log → Log
  stopped backup log =
      ran (import_command m name) (some backup)
      ∷ ran (stop_command m name) none
      ∷ (save_logs m name log).1

module _ (m : Machine) (finishes : Finishes m) where
  module _ (name : Text) where
    cleanup-IsClean :
        (backup : Text) (log : Log)
        → Succeeds m (import_command m name)
        → Succeeds m (commit_command m name)
        → (new : Log) × (cleanup m name backup log ≡ (ok tt, new ++ log))
          × IsClean m name backup log new
    unfolding cleanup undone
    cleanup-IsClean backup log imports commits =
        let (_, n1, e1, _) = save_logs-Does m finishes name log in
        let log1 = n1 ++ log in
        let (_, n2, e2, k2) = restore-Does m finishes name backup imports commits log1 in
        let log2 = n2 ++ log1 in
        let (_, n3, e3, k3) = attempt_all-Does m finishes name (filter_commands m name) log2 in
        let log3 = n3 ++ log2 in
        let (n4, e4, k4) = end_started-Does m finishes name log3 in
        let log4 = n4 ++ log3 in
        let (_, n5, e5, k5) = attempt_all-Does m finishes name (removal_commands m name) log4 in
        let saved = save_logs m name in
        let undo = restore m name backup in
        let filters = attempt_all m name (filter_commands m name) in
        let end = end_started m name in
        let removals = attempt_all m name (removal_commands m name) in
        let end_state : Result (Unit {0}) × Log = (ok tt, n5 ++ log4) in
        let new = n5 ++ (n4 ++ (n3 ++ (n2 ++ n1))) in
        let joined : Path (Result (Unit {0}) × Log) end_state (ok tt, new ++ log) =
          ap (λ l. (ok tt, l)) (append_five n5 n4 n3 n2 n1 log) in
        (
          new,
          then-eq saved (undo >> (filters >> (end >> removals))) log log1 tt end_state e1 (
                then-eq undo (filters >> (end >> removals)) log1 log2 tt end_state e2 (
                  then-eq filters (end >> removals) log2 log3 tt end_state e3
                    (then-eq end removals log3 log4 tt end_state e4 e5)))
              ∙ joined,
          (
            λ d h.
                elim (In-of_append d (restored m name backup)
                  (attempted (filter_commands m name) ++ attempted (removal_commands m name)) h) [
                    | inl g ↦
                        In-of_right d n5 _
                          (In-of_right d n4 _ (In-of_right d n3 _ (In-of_left d n2 n1 (k2 d g))))
                    | inr g ↦
                        elim (In-of_append d (attempted (filter_commands m name))
                          (attempted (removal_commands m name)) g) [
                            | inl f ↦
                                In-of_right d n5 _ (In-of_right d n4 _ (In-of_left d n3 _ (k3 d f)))
                            | inr r ↦ In-of_left d n5 _ (k5 d r)
                          ]
                  ],
            λ args h. In-of_right _ n5 _ (
                In-of_left _ n4 _ (
                  k4 (terminated args) (
                    In-ended args (processes_of log3) (
                      In-processes_of args log3 (
                        In-of_right _ n3 log2 (In-of_right _ n2 log1 (In-of_right _ n1 log h))))))),
          ),
        )

    cleanup-stopped :
        (backup err : Text) (log : Log)
        → Fails m (import_command m name) err
        → cleanup m name backup log ≡ (raise (runtime_error err), stopped m name backup log)
    unfolding cleanup restore run_with process
    cleanup-stopped backup err log fails =
        let (_, n1, e1, _) = save_logs-Does m finishes name log in
        let log1 = n1 ++ log in
        let (e, out, err2, h) = finishes log1 (stop_command m name) none in
        let (e3, out3, bad, h3) = fails (ran (stop_command m name) none ∷ log1) (some backup) in
        rw e1 (rw h (rw h3 (rw bad refl)))

    module _ {Net Addr : Type 0} (ip : Ip Net Addr) (saved : Text) (log exported : Log) where
      abbrev backup : Text
      backup = saved ++ 10 ∷ []

      abbrev tested : Result (Unit {0}) × Log
      tested = body m name ip exported

      main-eq :
          (q : Result (Unit {0}) × Log)
          → inside m name (words "uci export passwall") log ≡ (ok saved, exported)
          → cleanup m name backup tested.1 ≡ q
          → main m name ip log ≡ (after_finally tested.0 q.0, q.1)
      unfolding main
      main-eq q h e =
          ap (λ p. continue p λ t. try_finally (body m name ip) (cleanup m name (t ++ 10 ∷ []))) h
          ∙ try_finally-eq (body m name ip) (cleanup m name backup) exported q e

      -- If every command comes to an end and the settings can be imported and committed, then once they
      -- were exported, main has the result of its `try` block, whatever that is, and behind that block:
      -- the settings were restored, the removal of filters, container, namespace and link was tried, and
      -- every process that was started got the signal to end.
      pub main-IsClean :
          Succeeds m (import_command m name)
          → Succeeds m (commit_command m name)
          → inside m name (words "uci export passwall") log ≡ (ok saved, exported)
          → (new : Log) × (main m name ip log ≡ (tested.0, new ++ tested.1))
            × IsClean m name backup tested.1 new
      main-IsClean imports commits h =
          let (new, e, clean) = cleanup-IsClean backup tested.1 imports commits in
          (new, main-eq (ok tt, new ++ tested.1) h e, clean)

      -- If every command comes to an end but the settings cannot be imported, then main raises that
      -- failure whatever its `try` block did, and the import is the last thing it does.
      pub main-stopped :
          (err : Text)
          → Fails m (import_command m name) err
          → inside m name (words "uci export passwall") log ≡ (ok saved, exported)
          → main m name ip log ≡ (raise (runtime_error err), stopped m name backup tested.1)
      main-stopped err fails h =
          main-eq (raise (runtime_error err), stopped m name backup tested.1) h
            (cleanup-stopped backup err tested.1 fails)
