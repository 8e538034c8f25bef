-- ===== src/FlowExit/Main.antt =====
-- `main` of scripts/test-flow-exit.py. The temporary directory is there from the start, and its removal
-- at the end is not modelled.
use landscape_openwrt.Base.{[], ◌∷◌, ◌++◌, Text, words}
use landscape_openwrt.Action.{try_finally, ◌>>=◌}
use landscape_openwrt.Script.{Script, Machine}
use landscape_openwrt.Ip.{Ip}
use landscape_openwrt.FlowExit.{inside}
use landscape_openwrt.FlowExit.Body.{body}
use landscape_openwrt.FlowExit.Undo.{cleanup}

module _ (m : Machine) (name : Text) where
  unfoldable pub main : {Net Addr : Type 0} → Ip Net Addr → Script (Unit {0})
  main ip = do
    saved ← inside m name (words "uci export passwall")
    try_finally (body m name ip) (cleanup m name (saved ++ (10 ∷ [])))
