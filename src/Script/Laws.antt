-- ===== src/Script/Laws.antt =====
-- What a script does is added to what it has done.
use landscape_openwrt.Base.{Option, List, ◌∷◌, Text, ℕ}
use landscape_openwrt.Action.Laws.{Keeps}
use landscape_openwrt.Script.{Deed, ran, Log, Machine, slept, process, sleep, read_file}

-- A property of the run that every deed keeps.
abbrev pub Stable : (Log → Type 0) → Type 0
Stable P = (d : Deed) (log : Log) → P log → P (d ∷ log)

module _ (m : Machine) (P : Log → Type 0) (stable : Stable P) where
  pub process-Keeps : (args : List Text) (input : Option Text) → Keeps P (process m args input)
  unfolding process
  process-Keeps args input log h = stable (ran args input) log h

  pub sleep-Keeps : (n : ℕ) → Keeps P (sleep m n)
  unfolding sleep
  sleep-Keeps n log h = stable (slept n) log h

  pub read_file-Keeps : (path : Text) → Keeps P (read_file m path)
  unfolding read_file
  read_file-Keeps path log h = h
