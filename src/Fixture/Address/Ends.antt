-- ===== src/Fixture/Address/Ends.antt =====
-- The wait for an address ends.
use landscape_openwrt.Base.{
  ℕ, zero, suc, ◌+◌, ◌*◌, ◌≤◌, ◌≡◌, refl, sym, ◌∙◌, inl, inr, Option, none, some, List, [], ◌∷◌,
  arith, ltb, Text, ◌==◌, Bool-cases, codes,
}
use landscape_openwrt.Json.{Json, elements}
use landscape_openwrt.Action.{throw, ◌>>◌}
use landscape_openwrt.Action.Laws.{Keeps, Keeps-bind, Keeps-lift, Keeps-if, continue-eq}
use landscape_openwrt.Script.{Log, Script, Machine, IsClock, sleep, slept, second, load}
use landscape_openwrt.Script.Laws.{Stable}
use landscape_openwrt.Fixture.{inside}
use landscape_openwrt.Upstreams.Version.{text_at}
use landscape_openwrt.Fixture.Laws.{inside-Keeps}
use landscape_openwrt.Fixture.Address.{
  is_candidate, accept_ra, scan_addresses, addresses_of, scan_interfaces, look, wait_rounds,
  wait_address, most_rounds, no_address, stage_prefix, stop_at, return_or,
}

module _ (m : Machine) (name : Text) (P : Log → Type 0) (stable : Stable P) where
  scan_addresses-Keeps :
      (prefix : Text) (list : List Json) → Keeps P (scan_addresses m name prefix list)
  unfolding scan_addresses
  scan_addresses-Keeps prefix [] log h = h
  scan_addresses-Keeps prefix (address ∷ more) log h =
      let rest = scan_addresses-Keeps prefix more in
      Keeps-lift P (is_candidate prefix address) _
        (λ candidate _.
          Keeps-if P candidate _ _
            (Keeps-bind P (accept_ra m name) _ (inside-Keeps m P stable name _) λ setting.
              Keeps-if P (setting == codes "2") _ _
                (Keeps-lift P (text_at (codes "local") address) _ λ local _ u k. k) rest)
            rest)
        log h

  stop_at-Keeps :
      (found : Option Text) (rest : Script (Option Text))
      → Keeps P rest
      → Keeps P (stop_at found rest)
  stop_at-Keeps (some local) rest k log h = h
  stop_at-Keeps none rest k log h = k log h

  scan_interfaces-Keeps :
      (prefix : Text) (list : List Json) → Keeps P (scan_interfaces m name prefix list)
  unfolding scan_interfaces
  scan_interfaces-Keeps prefix [] log h = h
  scan_interfaces-Keeps prefix (iface ∷ more) log h =
      Keeps-lift P (addresses_of iface) _
        (λ addresses _.
          Keeps-bind P (scan_addresses m name prefix addresses) _
            (scan_addresses-Keeps prefix addresses)
            λ found. stop_at-Keeps found _ (scan_interfaces-Keeps prefix more))
        log h

  look-Keeps : (prefix : Text) → Keeps P (look m name prefix)
  unfolding look
  look-Keeps prefix = Keeps-bind P (inside m name _) _ (inside-Keeps m P stable name _) λ text.
      Keeps-lift P (load m text) _ λ shown _.
        Keeps-lift P (elements shown) _ λ interfaces _. scan_interfaces-Keeps prefix interfaces

module _ (m : Machine) (clock : IsClock m) (name prefix : Text) (deadline : ℕ) where
  -- The clock has reached a time.
  abbrev Later : ℕ → Log → Type 0
  Later time log = time ≤ m.clock log

  Later-Stable : (time : ℕ) → Stable (Later time)
  Later-Stable time d log h = omega (arith, clock.clock_le d log)

  -- What follows a look, with the rest of two loops that agree.
  go_on :
      (total rounds : ℕ) (log : Log) (found : Option Text)
      → wait_rounds m name prefix deadline total (slept (2 * second) ∷ log)
        ≡ wait_rounds m name prefix deadline rounds (slept (2 * second) ∷ log)
      → return_or found (do sleep m (2 * second); wait_rounds m name prefix deadline total) log
        ≡ return_or found (do sleep m (2 * second); wait_rounds m name prefix deadline rounds) log
  unfolding sleep
  go_on total rounds log (some local) h = refl
  go_on total rounds log none h = h

  late-wait_rounds :
      (rounds : ℕ) (log : Log)
      → Later deadline log
      → wait_rounds m name prefix deadline rounds log ≡ throw no_address log
  unfolding wait_rounds
  late-wait_rounds zero log h = refl
  late-wait_rounds (suc rounds) log h = ground arith

  -- Rounds that reach the deadline are enough: more change nothing.
  enough_rounds :
      (rounds total : ℕ) (log : Log)
      → rounds ≤ total
      → deadline ≤ m.clock log + rounds * (2 * second)
      → wait_rounds m name prefix deadline total log ≡ wait_rounds m name prefix deadline rounds log
  unfolding wait_rounds sleep
  enough_rounds zero total log l h =
      let late : Later deadline log = omega arith in
      late-wait_rounds total log late ∙ sym (late-wait_rounds zero log late)
  enough_rounds (suc rounds) zero log l h = absurd (omega arith)
  enough_rounds (suc rounds) (suc total) log l h = elim (Bool-cases (ltb (m.clock log) deadline)) [
    | inl early ↦
        let after : Later (m.clock log) (look m name prefix log).1 =
          look-Keeps m name (Later (m.clock log)) (Later-Stable (m.clock log)) prefix log
            (omega arith) in
        rw early (
          continue-eq (look m name prefix log) _ _ λ found _.
            go_on total rounds (look m name prefix log).1 found (
              enough_rounds rounds total (slept (2 * second) ∷ (look m name prefix log).1)
                (omega arith)
                (omega (arith, after, clock.clock_slept (2 * second) (look m name prefix log).1))))
    | inr late ↦ rw late refl
  ]

-- The 23 rounds of the model are all that the loop can take: with any greater number of rounds the
-- wait does and returns the same.
pub wait_address-ends :
    (m : Machine) (name : Text) (stage total : ℕ) (log : Log)
    → IsClock m
    → most_rounds ≤ total
    → wait_rounds m name (stage_prefix m stage) (m.clock log + 45 * second) total log
      ≡ wait_address m name stage log
unfolding wait_address
wait_address-ends m name stage total log clock l =
    enough_rounds m clock name (stage_prefix m stage) (m.clock log + 45 * second) most_rounds total
      log l (omega arith)
