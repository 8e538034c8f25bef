-- ===== src/FlowExit/Steps.antt =====
-- What each part of the `finally` block does.
use landscape_openwrt.Base.{
  ◌≡◌, refl, ap, subst, inl, inr, Option, none, some, List, [], ◌∷◌, ◌++◌, In, Text, strip, ok,
  Bool-cases,
}
use landscape_openwrt.Script.{Deed, ran, launched, terminated, killed, wrote, Log, Machine, process}
use landscape_openwrt.FlowExit.{run, run_with}
use landscape_openwrt.FlowExit.Body.{started, processes_of}
use landscape_openwrt.FlowExit.Undo.{
  save_output, save_both, copy_text, copy_log, save_logs, restore, stop_command, import_command,
  commit_command, attempt_all, end_process, end_processes, end_started,
}
use landscape_openwrt.Script.Does.{
  Does, Does-then, Does-nothing, Does-less, Does-note, Does-ran, Finishes, Succeeds, process-Does,
}
use landscape_openwrt.Base.{In-of_left, In-of_right}

-- The deeds of commands that are all tried.
unfoldable pub attempted : List (List Text) → List Deed
attempted [] = []
attempted (args ∷ more) = ran args none ∷ attempted more

-- The signals to end of processes.
unfoldable pub ended : List (List Text) → List Deed
ended [] = []
ended (args ∷ more) = terminated args ∷ ended more

pub In-ended :
    (args : List Text) (processes : List (List Text))
    → In args processes
    → In (terminated args) (ended processes)
unfolding ended
In-ended args (x ∷ more) (inl e) = inl (ap terminated e)
In-ended args (x ∷ more) (inr h) = inr (In-ended args more h)
In-ended args [] h = absurd h

-- A process that was started is found in the run.
pub In-processes_of :
    (args : List Text) (log : Log) → In (launched args) log → In args (processes_of log)
unfolding processes_of
In-processes_of args [] h = h
In-processes_of args (d ∷ log) (inl e) =
    In-of_right args (processes_of log) (started d)
      (subst (λ (x : Deed). In args (started x)) e (inl refl))
In-processes_of args (d ∷ log) (inr h) =
    In-of_left args (processes_of log) (started d) (In-processes_of args log h)

module _ (m : Machine) (name : Text) where
  -- What restores the settings from the backup.
  abbrev pub restored : Text → List Deed
  restored backup =
      ran (import_command m name) (some backup) ∷ ran (commit_command m name) none ∷ []

module _ (m : Machine) (finishes : Finishes m) where
  pub run_with-Does :
      (args : List Text) (input : Option Text)
      → Succeeds m args
      → Does (ran args input ∷ []) (run_with m args input)
  unfolding run_with process
  run_with-Does args input succeeds log =
      let (out, err, h) = succeeds log input in
      (strip out, ran args input ∷ [], rw h refl, λ x h. h)

  module _ (name : Text) where
    pub attempt_all-Does :
        (commands : List (List Text)) → Does (attempted commands) (attempt_all m name commands)
    unfolding attempt_all attempted
    attempt_all-Does [] = Does-nothing tt
    attempt_all-Does (args ∷ more) =
        Does-then (ran args none ∷ []) (attempted more) (process m args none) _
          (process-Does m finishes args none) (attempt_all-Does more)

    pub save_output-Does : (args : List Text) (path : Text) → Does [] (save_output m name args path)
    unfolding save_output
    save_output-Does args path =
        Does-less (ran args none ∷ []) _
          (Does-ran m finishes args [] _ λ a. Does-less (wrote path a.1 ∷ []) _ (Does-note _))

    pub save_both-Does : (args : List Text) (path : Text) → Does [] (save_both m name args path)
    unfolding save_both
    save_both-Does args path = Does-less (ran args none ∷ []) _ (
        Does-ran m finishes args [] _ λ a. Does-less (wrote path (a.1 ++ a.2) ∷ []) _ (Does-note _))

    pub copy_text-Does : (path : Text) (text : Option Text) → Does [] (copy_text m name path text)
    copy_text-Does path (some text) = Does-less (wrote path text ∷ []) _ (Does-note _)
    copy_text-Does path none = Does-nothing tt

    pub copy_log-Does : (file : Text) → Does [] (copy_log m name file)
    unfolding copy_log
    copy_log-Does file log = copy_text-Does _ _ log

    pub save_logs-Does : Does [] (save_logs m name)
    unfolding save_logs
    save_logs-Does = Does-then [] [] _ _ (save_output-Does _ _) (
        Does-then [] [] _ _ (save_output-Does _ _) (
          Does-then [] [] _ _ (save_both-Does _ _) (
            Does-then [] [] _ _ (copy_log-Does _) (
              Does-then [] [] _ _ (copy_log-Does _) (
                Does-then [] [] _ _ (copy_log-Does _) (
                  Does-then [] [] _ _ (copy_log-Does _)
                    (Does-then [] [] _ _ (save_both-Does _ _) (save_both-Does _ _))))))))

    pub end_process-Does :
        (args : List Text) → Does (terminated args ∷ []) (end_process m name args)
    unfolding end_process
    end_process-Does args log = elim (Bool-cases (m.ends log args)) [
      | inl e ↦ rw e (tt, terminated args ∷ [], refl, λ x h. h)
      | inr e ↦ rw e (tt, killed args ∷ terminated args ∷ [], refl, λ x h. inr h)
    ]

    pub end_processes-Does :
        (processes : List (List Text)) → Does (ended processes) (end_processes m name processes)
    unfolding end_processes ended
    end_processes-Does [] = Does-nothing tt
    end_processes-Does (args ∷ more) =
        Does-then (terminated args ∷ []) (ended more) (end_process m name args) _
          (end_process-Does args) (end_processes-Does more)

    pub end_started-Does :
        (log : Log)
        → (new : Log) × (end_started m name log ≡ (ok tt, new ++ log))
          × ((d : Deed) → In d (ended (processes_of log)) → In d new)
    end_started-Does log =
        let (_, new, e, done) = end_processes-Does (processes_of log) log in (new, e, done)

    pub restore-Does :
        (backup : Text)
        → Succeeds m (import_command m name)
        → Succeeds m (commit_command m name)
        → Does (restored m name backup) (restore m name backup)
    unfolding restore
    restore-Does backup imports commits =
        let done = ran (commit_command m name) none ∷ [] in
        Does-then [] (restored m name backup) (process m (stop_command m name) none) _
          (Does-less (ran (stop_command m name) none ∷ []) _
            (process-Does m finishes (stop_command m name) none))
          (Does-then (ran (import_command m name) (some backup) ∷ []) done
            (run_with m (import_command m name) (some backup)) _
            (run_with-Does (import_command m name) (some backup) imports)
            (Does-then done [] (run m (commit_command m name)) _
              (run_with-Does (commit_command m name) none commits) (Does-nothing tt)))
