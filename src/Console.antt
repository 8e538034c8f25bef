-- ===== src/Console.antt =====
-- scripts/test-console.py: the two terminals that stand for the host's consoles, and the check that a
-- container leaves them alone. The terminals, their attributes and the socket between the two parts are
-- parameters.
pub mod Serve
pub mod Check
pub mod Untouched
pub mod Managed
use landscape_openwrt.Base.{
  ℕ, Bool, false, Option, none, some, List, [], ◌∷◌, ◌++◌, ◌+◌, length, Text, codes, ◌==◌, assert,
  Result, ok,
}
use landscape_openwrt.Json.{Json, num, bool, str, arr, obj, nil, cons, end, field}
use landscape_openwrt.Action.{lift, pure, ◌>>=◌, ◌>>◌}
use landscape_openwrt.Script.{Script, Machine, note, wrote, under}

-- `[first, second]`
abbrev pub two_of : Json → Json → Json
two_of a b = arr (cons a (cons b nil))

abbrev pub cmdline : Text
cmdline = codes "console=ttyS0,115200n8"

-- What the first terminal shows of the text that is written to its other side, `none` if nothing comes
-- within two seconds.
unfoldable pub prove_pair : Option Text → Result (Unit {0})
prove_pair none = assert false []
prove_pair (some shown) = assert (shown == codes "console-fixture-check") []

-- `serve` up to its loop, for the terminals of these names.
unfoldable pub start : Machine → Text → Option Text × Option Text → Text × Text → Script (Unit {0})
start m root shown names = do
  lift (prove_pair shown.0)
  lift (prove_pair shown.1)
  note (wrote (under root (codes "console-cmdline")) (cmdline ++ 10 ∷ []))
  note (
      wrote (under root (codes "console-devices.json"))
        (m.dumps (two_of (str names.0) (str names.1))))

-- The status that a client is sent.
abbrev pub status_of : ℕ × ℕ → Bool × Bool → Json
status_of received unchanged = obj (
    field (codes "received_bytes") (two_of (num received.0) (num received.1))
      (field (codes "termios_unchanged") (two_of (bool unchanged.0) (bool unchanged.1)) end))
