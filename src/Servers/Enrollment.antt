-- ===== src/Servers/Enrollment.antt =====
-- scripts/test-server.py: the socket that records enrollments, and a server as that of exit-target.py.
use landscape_openwrt.Base.{
  ◌≡◌, refl, sym, ap, ◌∙◌, ℕ, none, some, List, [], ◌∷◌, ◌++◌, map, All, length, Text, Bytes, codes,
  ok, raise, value_error, invalid_json, index_error, words,
}
use mathlib.Core.List.{append-nil}
use landscape_openwrt.Json.{Json}
use landscape_openwrt.Action.{pure, throw, lift, ◌>>=◌, ◌>>◌}
use landscape_openwrt.Action.Laws.{then-eq}
use landscape_openwrt.Script.{Log, Script, Machine, note, launched, wrote, load, under}
use landscape_openwrt.Console.Check.{stream_of}
use landscape_openwrt.Servers.{HttpReply}

-- `Handler.do_GET`, for a client with this address.
unfoldable pub peer_reply : (Text → Bytes) → (ℕ → Text) → Text → HttpReply
peer_reply encode show address =
    let bytes = encode (address ++ 10 ∷ []) in
    record {
      status = 200;
      headers = (codes "Content-Length", show (length bytes)) ∷ [];
      content = bytes;
    }

abbrev pub enrollment_path : Text → Text
enrollment_path root = under root (codes "enrollment.json")

module _ (m : Machine) where
  -- A connection, by the chunks that `recv` returns: the file is written anew.
  unfoldable pub record_value : Text → List Text → Script (Unit {0})
  record_value root chunks = do
    value ← lift (load m (stream_of chunks))
    note (wrote (enrollment_path root) (m.dumps value))

  -- The loop, over the connections that come in. An exception ends it.
  unfoldable pub enroll : Text → List (List Text) → Script (Unit {0})
  enroll root [] = pure tt
  enroll root (chunks ∷ more) = do record_value root chunks; enroll root more

-- The socket for enrollments.
unfoldable pub listen_at : Text → Script (Unit {0})
listen_at root = note (launched (words "bind" ++ under root (codes "register.sock") ∷ []))

-- Its thread, and the server.
unfoldable pub serve_all : Script (Unit {0})
serve_all = do note (launched (words "enroll")); note (launched (words "Server :: 18081"))

-- The script, with its arguments.
unfoldable pub start_server : List Text → Script (Unit {0})
start_server [] = throw index_error
start_server (root ∷ args) = do listen_at root; serve_all

-- What the chunks of a client are together.
abbrev pub whole : List Text → Text
whole [] = []
whole (chunk ∷ chunks) = chunk ++ whole chunks

abbrev pub IsChunk : Text → Type 0
IsChunk chunk = (c : ℕ) × (rest : Text) × (chunk ≡ c ∷ rest)

stream_of-whole : (chunks : List Text) → All IsChunk chunks → stream_of chunks ≡ whole chunks
unfolding stream_of
stream_of-whole [] h = refl
stream_of-whole (chunk ∷ chunks) ((c, rest, e), h) =
    rw e (ap (λ (s : Text). c ∷ (rest ++ s)) (stream_of-whole chunks h))

module _ (m : Machine) where
  -- A client that sent what is read as the value, in chunks of any length, and closed the connection.
  abbrev pub IsClient : Json × List Text → Type 0
  IsClient (value, chunks) = (m.loads (whole chunks) ≡ some value) × All IsChunk chunks

  -- The files that were written for the clients, one behind the other.
  abbrev pub recorded : Text → List (Json × List Text) → Log → Log
  recorded root [] log = log
  recorded root ((value, chunks) ∷ clients) log =
      recorded root clients (wrote (enrollment_path root) (m.dumps value) ∷ log)

  abbrev pub sent : Json × List Text → List Text
  sent client = client.1

  record_value-eq :
      (root : Text) (value : Json) (chunks : List Text) (log : Log)
      → IsClient (value, chunks)
      → record_value m root chunks log ≡ (ok tt, wrote (enrollment_path root) (m.dumps value) ∷ log)
  unfolding record_value
  record_value-eq root value chunks log (e, h) = rw (stream_of-whole chunks h, load, e) refl

  enroll-append :
      (root : Text) (clients : List (Json × List Text)) (more : List (List Text)) (log : Log)
      → All IsClient clients
      → enroll m root (map sent clients ++ more) log
        ≡ enroll m root more (recorded root clients log)
  unfolding enroll
  enroll-append root [] more log h = refl
  enroll-append root ((value, chunks) ∷ clients) more log (c, h) =
      then-eq (record_value m root chunks) (enroll m root (map sent clients ++ more)) log _ tt _
        (record_value-eq root value chunks log c) (enroll-append root clients more _ h)

  enroll-refused :
      (root : Text) (chunks : List Text) (more : List (List Text)) (log : Log)
      → m.loads (stream_of chunks) ≡ none
      → enroll m root (chunks ∷ more) log ≡ (raise (value_error invalid_json), log)
  unfolding enroll record_value
  enroll-refused root chunks more log e = rw (load, e) refl

  -- Of clients that send JSON, in chunks of any length, the values are written in the order of the
  -- connections; the first that sends something else ends the loop, with the `ValueError` of
  -- `json.loads`, and nothing of the clients behind it is written.
  pub enroll-records :
      (root : Text) (clients : List (Json × List Text)) (bad : List Text) (more : List (List Text))
      (log : Log)
      → All IsClient clients
      → m.loads (stream_of bad) ≡ none
      → (enroll m root (map sent clients) log ≡ (ok tt, recorded root clients log))
        × (enroll m root (map sent clients ++ bad ∷ more) log
            ≡ (raise (value_error invalid_json), recorded root clients log))
  unfolding enroll
  enroll-records root clients bad more log h e = (
    ap (λ (all_sent : List (List Text)). enroll m root all_sent log)
          (sym (append-nil (map sent clients)))
        ∙ enroll-append root clients [] log h,
    enroll-append root clients (bad ∷ more) log h
        ∙ enroll-refused root bad more (recorded root clients log) e,
  )
