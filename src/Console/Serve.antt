-- ===== src/Console/Serve.antt =====
-- The loop of `serve` in scripts/test-console.py.
use landscape_openwrt.Base.{
  ℕ, ◌+◌, ◌≡◌, Bool, true, false, Option, none, some, List, [], ◌∷◌, length, Text,
}
use landscape_openwrt.Json.{Json}
use landscape_openwrt.Console.{status_of}

-- What `os.read` returned of a terminal that was readable.
abbrev pub size_of : Option Text → ℕ
size_of none = 0
size_of (some bytes) = length bytes

abbrev pub count : ℕ × ℕ → Option Text × Option Text → ℕ × ℕ
count received bytes = (received.0 + size_of bytes.0, received.1 + size_of bytes.1)

-- The attributes of a terminal and `==` of them.
module _ (Attr : Type 0) (same : Attr → Attr → Bool) where
  -- The counts, the attributes at the start, the statuses sent, the last one first, and whether the
  -- signal to stop came.
  pub record Probe : Type 0 where
    pub received : ℕ × ℕ
    pub attributes : Attr × Attr
    pub sent : List Json
    pub stopping : Bool

  -- The status while the terminals have these attributes.
  abbrev pub status_now : Probe → Attr × Attr → Json
  status_now s now = status_of s.received (same now.0 s.attributes.0, same now.1 s.attributes.1)

  -- The answer to a client, if there is one.
  abbrev pub answer : Probe → Option (Attr × Attr) → List Json
  answer s none = s.sent
  answer s (some now) = status_now s now ∷ s.sent

  -- A round of the loop: what was readable, then the client.
  unfoldable pub round : Option Text × Option Text → Option (Attr × Attr) → Probe → Probe
  round bytes client s =
      let counted = record s { received = count s.received bytes } in
      record counted { sent = answer counted client }

  pub data Step : Probe → Probe → Type 0 where
    pass :
        (s : Probe) (bytes : Option Text × Option Text) (client : Option (Attr × Attr))
        → s.stopping ≡ false
        → Step s (round bytes client s)
    signal : (s : Probe) → Step s (record s { stopping = true })

  pub data Reach (s : Probe) : Probe → Type 0 where
    here : Reach s s
    next : {t u : Probe} → Reach s t → Step t u → Reach s u

  -- `received = [0, 0]`
  abbrev pub begin : Attr × Attr → Probe
  begin attributes = record {
    received = (0, 0);
    attributes = attributes;
    sent = [];
    stopping = false;
  }
