-- ===== src/Console/Managed.antt =====
-- What a container has that passes the check: no process of it logs in on a console.
use landscape_openwrt.Base.{
  assert-false, ◌≡◌, false, not, List, [], ◌∷◌, All, assert, Text, splitlines, split_words, codes,
  ◌==◌, ok,
}
use landscape_openwrt.Base.{>>=-eq-ok as bind-eq-ok}
use landscape_openwrt.Action.{lift}
use landscape_openwrt.Action.Laws.{Ensures-bind, Ensures-then, Ensures-lift}
use landscape_openwrt.Script.{Log, Machine, check_output}
use landscape_openwrt.Console.{cmdline}
use landscape_openwrt.Console.Check.{
  fields_of, is_login, is_console, check_line, check_lines, tail_of, inside, same_lines, inittab,
  top_command, check_container,
}

-- A line of the list of processes with its four words.
pub data IsProcess (line : Text) : Type 0 where
  process_line :
      (pid ppid terminal command : Text)
      → split_words line ≡ pid ∷ ppid ∷ terminal ∷ command ∷ []
      → is_login command ≡ false
      → is_console terminal ≡ false
      → IsProcess line

fields_of-eq-ok :
    (fields : List Text) (terminal command : Text)
    → fields_of fields ≡ ok (terminal, command)
    → (pid : Text) × (ppid : Text) × (fields ≡ pid ∷ ppid ∷ terminal ∷ command ∷ [])
fields_of-eq-ok (pid ∷ ppid ∷ a ∷ b ∷ []) terminal command h = (pid, ppid, cc)
fields_of-eq-ok [] terminal command h = cc
fields_of-eq-ok (a ∷ []) terminal command h = cc
fields_of-eq-ok (a ∷ b ∷ []) terminal command h = cc
fields_of-eq-ok (a ∷ b ∷ c ∷ []) terminal command h = cc
fields_of-eq-ok (a ∷ b ∷ c ∷ d ∷ e ∷ more) terminal command h = cc

check_line-IsProcess : (line : Text) → check_line line ≡ ok tt → IsProcess line
unfolding check_line
check_line-IsProcess line h =
    let ((terminal, command), e, q) = bind-eq-ok (fields_of (split_words line)) _ h in
    let (_, login, terminals) = bind-eq-ok (assert (not (is_login command)) line) _ q in
    let (pid, ppid, fields) = fields_of-eq-ok (split_words line) terminal command e in
    process_line pid ppid terminal command fields (assert-false (is_login command) line login)
      (assert-false (is_console terminal) line terminals)

check_lines-AreProcesses : (lines : List Text) → check_lines lines ≡ ok tt → All IsProcess lines
unfolding check_lines
check_lines-AreProcesses [] h = tt
check_lines-AreProcesses (line ∷ more) h =
    let (_, e, q) = bind-eq-ok (check_line line) _ h in
    (check_line-IsProcess line e, check_lines-AreProcesses more q)

module _ (m : Machine) (name : Text) where
  -- The list of the container's processes, behind its heading, as it was asked for.
  abbrev pub IsManaged : Unit {0} → Type 0
  IsManaged _ =
      (top : Text) × (before : Log) × (after : Log) × (check_output m (top_command m name) before
        ≡ (ok top, after))
      × All IsProcess (tail_of (splitlines top))

  -- A container passes only if every process of it that `docker top` lists has four columns, is no
  -- login process and is on no console.
  pub check_container-IsManaged :
      (log after : Log) → check_container m name log ≡ (ok tt, after) → IsManaged tt
  unfolding check_container
  check_container-IsManaged log after h =
      let P = IsManaged in
      Ensures-then P (inside m name _) _
        (Ensures-bind P (inside m name _) _ λ kernel _ _ _.
          Ensures-then P (lift (assert (kernel == cmdline) [])) _ (
            Ensures-bind P (inside m name _) _ λ table _ _ _.
              Ensures-then P (lift (assert (same_lines (splitlines table) inittab) [])) _ (
                Ensures-bind P (inside m name _) _ λ first _ _ _.
                  Ensures-then P (lift (assert (first == codes "procd") [])) _ (
                    Ensures-bind P (check_output m (top_command m name)) _ λ top u v asked.
                      Ensures-lift P (check_lines (tail_of (splitlines top))) _ λ _ passed _ _ _ _.
                        (
                          top,
                          u,
                          v,
                          asked,
                          check_lines-AreProcesses (tail_of (splitlines top)) passed,
                        )))))
        tt log after h
