-- ===== src/Servers.antt =====
-- scripts/exit-target.py: the servers that answer with the address of the peer that they see, and the
-- client of one of them. What the library adds to a reply, the headers `Server` and `Date`, is left out.
pub mod Enrollment
pub mod Seen
use landscape_openwrt.Base.{
  ℕ, Bool, Option, none, some, List, [], ◌∷◌, ◌++◌, map, if◌then◌else◌, length, Text, Bytes,
  Headers, codes, words, ◌==◌, is_inside, index_error, value_error, unknown_mode, invalid_encoding,
  Result, ok, raise,
}
use landscape_openwrt.Action.{throw, lift, ◌>>=◌, ◌>>◌}
use landscape_openwrt.Script.{Script, note, launched, printed}

pub record HttpReply : Type 0 where
  pub status : ℕ
  pub headers : Headers
  pub content : Bytes

-- The address and the port of a client.
abbrev pub Peer : Type 0
Peer = Text × ℕ

-- `text.encode()` and `str(number)`
module _ (encode : Text → Bytes) (show : ℕ → Text) where
  -- `Handler.do_GET`, for a client with this address.
  unfoldable pub do_get : Text → HttpReply
  do_get address =
      let bytes = encode (address ++ 10 ∷ []) in
      record {
        status = 200;
        headers = (codes "Content-Length", show (length bytes)) ∷ [];
        content = bytes;
      }

module _ (encode : Text → Bytes) where
  -- A round of the loop of `udp`: the datagram that is sent for one that was received.
  unfoldable pub echo : Bytes × Peer → Bytes × Peer
  echo (content, peer) = (encode peer.0, peer)

  -- What was sent when these datagrams were received.
  unfoldable pub udp : List (Bytes × Peer) → List (Bytes × Peer)
  udp received = map echo received

-- `text.decode()`
abbrev pub decoded : Option Text → Result Text
decoded (some text) = ok text
decoded none = raise (value_error invalid_encoding)

-- `decode`, and what `recvfrom(2048)` returns for a datagram that was sent to a peer, in IPv6 or not.
module _ (decode : Bytes → Option Text) (ask : Bool → Bytes → Peer → Result Bytes) where
  unfoldable pub ask_peer : Text → Script (Unit {0})
  ask_peer host = do
    content ← lift (ask (is_inside (codes ":") host) (codes "flow-exit-test") (host, 18082))
    text ← lift (decoded (decode content))
    note (printed text)

  -- The command line.
  unfoldable pub serve_peers : Script (Unit {0})
  serve_peers = do note (launched (words "udp")); note (launched (words "Server :: 18081"))

  abbrev pub ask_first : List Text → Script (Unit {0})
  ask_first [] = throw index_error
  ask_first (host ∷ args) = ask_peer host

  unfoldable pub main : List Text → Script (Unit {0})
  main [] = throw index_error
  main (mode ∷ args) =
      if mode == codes "serve"
      then serve_peers
      else if mode == codes "udp"
      then ask_first args
      else throw (value_error unknown_mode)
