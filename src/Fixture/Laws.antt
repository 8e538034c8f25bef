-- ===== src/Fixture/Laws.antt =====
-- What a command keeps.
use landscape_openwrt.Base.{none, List, Text}
use landscape_openwrt.Action.Laws.{Keeps, Keeps-bind, Keeps-if}
use landscape_openwrt.Script.{Log, Machine, complained, is_success, process}
use landscape_openwrt.Script.Laws.{Stable, process-Keeps}
use landscape_openwrt.Fixture.{command, inside}

module _ (m : Machine) (P : Log → Type 0) (stable : Stable P) where
  pub command-Keeps : (args : List Text) → Keeps P (command m args)
  unfolding command
  command-Keeps args =
      Keeps-bind P (process m args none) _ (process-Keeps m P stable args none) λ (e, out, err).
        Keeps-if P (is_success e) _ _ (λ log h. h) (λ log h. stable (complained out) log h)

  pub inside-Keeps : (name : Text) (args : List Text) → Keeps P (inside m name args)
  unfolding inside
  inside-Keeps name args = command-Keeps _
