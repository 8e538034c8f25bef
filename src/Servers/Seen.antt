-- ===== src/Servers/Seen.antt =====
-- The servers of exit-target.py as the requests of test-flow-exit.py see them.
use landscape_openwrt.Base.{
  assert-true, ok-inj, some-inj, subst, ◌≡◌, ◌↔◌, refl, sym, ap, ◌∙◌, true, Option, none, some,
  List, [], ◌∷◌, ◌++◌, Text, Bytes, codes, words, strip, assert, Result, ok,
}
use landscape_openwrt.Action.{continue, lift, ◌>>=◌, ◌>>◌}
use landscape_openwrt.Action.Laws.{>>=-eq-ok, lift-eq-ok}
use landscape_openwrt.Script.{Log, Machine, finished, exited, process, ran}
use landscape_openwrt.Ip.{Ip}
use landscape_openwrt.FlowExit.{ip_of, run, run_with}
use landscape_openwrt.FlowExit.Traffic.{authority_of, expect_peer, request_peer}
use landscape_openwrt.Servers.{do_get, echo}

abbrev tcp_message : Text
tcp_message = codes "TCP bypassed the test proxy"

abbrev udp_message : Text
udp_message = codes "UDP bypassed the test proxy"

-- The commands of a request.
abbrev pub curl_of : List Text → Text → List Text
curl_of prefix address =
    prefix
    ++ words "curl --noproxy * -gfsS --max-time 10"
    ++ (codes "http://" ++ (authority_of address ++ codes ":18081/")) ∷ []

abbrev pub asker_of : Machine → List Text → Text → List Text
asker_of m prefix address = prefix ++ m.python ∷ words "scripts/exit-target.py udp" ++ address ∷ []

-- `curl` prints the body that the HTTP server sends to a client with the address `seen`, and the client
-- of the UDP server the datagram sent to it, with a line feed.
pub record AreAnswered (m : Machine) (encode : Text → Bytes) (decode : Bytes → Option Text)
    (prefix : List Text) (address seen : Text) : Type 0 where
  pub tcp : Text
  pub udp : Text
  pub tcp_eq : decode (do_get encode m.show seen).content ≡ some tcp
  pub tcp_run : (log : Log) → m.run log (curl_of prefix address) none ≡ finished (exited 0) tcp []
  pub udp_eq : decode (echo encode (codes "flow-exit-test", (seen, 18082))).0 ≡ some udp
  pub udp_run :
      (log : Log)
      → m.run log (asker_of m prefix address) none ≡ finished (exited 0) (udp ++ 10 ∷ []) []

module _ {Net Addr : Type 0} (ip : Ip Net Addr) where
  -- Two texts name the same address, where an IPv4-mapped one counts as the IPv4 address.
  abbrev pub SameAddress : Text → Text → Type 0
  SameAddress s t =
      (a : Addr) × (b : Addr) × (ip_of ip s ≡ ok a)
      × (ip_of ip t ≡ ok b)
      × (ip.same_address a b ≡ true)

module _ (m : Machine) {Net Addr : Type 0} (ip : Ip Net Addr) where
  expect_peer_iff :
      (seen address message : Text) (log : Log)
      → ((expect_peer m ip seen address message log).0 ≡ ok tt) ↔ SameAddress ip seen address
  unfolding expect_peer
  expect_peer_iff seen address message log = (sound, complete)
    where
      sound : (expect_peer m ip seen address message log).0 ≡ ok tt → SameAddress ip seen address
      sound h =
          let done =
            ap (λ (r : Result (Unit {0})). (r, (expect_peer m ip seen address message log).1)) h in
          let (a, u, e, q) = >>=-eq-ok (lift (ip_of ip seen)) _ log done in
          let (b, v, f, r) = >>=-eq-ok (lift (ip_of ip address)) _ u q in
          (
            a,
            b,
            (lift-eq-ok (ip_of ip seen) log e).0,
            (lift-eq-ok (ip_of ip address) u f).0,
            assert-true (ip.same_address a b) message
                (lift-eq-ok (assert (ip.same_address a b) message) v r).0,
          )

      complete : SameAddress ip seen address → (expect_peer m ip seen address message log).0 ≡ ok tt
      complete (a, b, e, f, same) = rw (e, f, same) refl

module _ (m : Machine) (encode : Text → Bytes) (decode : Bytes → Option Text) where
  -- What a command gives whose output is a text with nothing to strip.
  run-finished :
      (args : List Text) (out seen : Text) (log : Log)
      → m.run log args none ≡ finished (exited 0) out []
      → strip out ≡ seen
      → run m args log ≡ (ok seen, ran args none ∷ log)
  unfolding run_with process
  run-finished args out seen log e s = rw (e, s) refl

  -- If the servers see a client with a certain address, written without white space at its ends, and
  -- that text is decoded as it was encoded, then a request passes exactly if it is the address that was
  -- asked for, where an IPv4 address may be written as an IPv6 one.
  pub request_peer_iff :
      {Net Addr : Type 0} (ip : Ip Net Addr) (prefix : List Text) (address seen : Text) (log : Log)
      → AreAnswered m encode decode prefix address seen
      → decode (encode seen) ≡ some seen
      → decode (encode (seen ++ 10 ∷ [])) ≡ some (seen ++ 10 ∷ [])
      → strip (seen ++ 10 ∷ []) ≡ seen
      → ((request_peer m ip prefix address log).0 ≡ ok tt) ↔ SameAddress ip seen address
  unfolding request_peer do_get echo
  request_peer_iff ip prefix address seen log answered codec codec_line line = (sound, complete)
    where
      tcp_is : answered.tcp ≡ seen ++ 10 ∷ []
      tcp_is = some-inj answered.tcp _ (sym answered.tcp_eq ∙ codec_line)

      udp_is : answered.udp ≡ seen
      udp_is = some-inj answered.udp seen (sym answered.udp_eq ∙ codec)

      curl_done :
          (before : Log)
          → run m (curl_of prefix address) before
            ≡ (ok seen, ran (curl_of prefix address) none ∷ before)
      curl_done before =
          run-finished (curl_of prefix address) answered.tcp seen before (answered.tcp_run before)
            (ap strip tcp_is ∙ line)

      asker_done :
          (before : Log)
          → run m (asker_of m prefix address) before
            ≡ (ok seen, ran (asker_of m prefix address) none ∷ before)
      asker_done before =
          run-finished (asker_of m prefix address) (answered.udp ++ 10 ∷ []) seen before
            (answered.udp_run before) (ap (λ (s : Text). strip (s ++ 10 ∷ [])) udp_is ∙ line)

      sound : (request_peer m ip prefix address log).0 ≡ ok tt → SameAddress ip seen address
      sound h =
          let (a, u, e, q) =
            >>=-eq-ok (run m (curl_of prefix address)) _ log
              (ap (λ (r : Result (Unit {0})). (r, (request_peer m ip prefix address log).1)) h) in
          let same : a ≡ seen =
            ok-inj a seen (ap (λ (p : Result Text × Log). p.0) (sym e ∙ curl_done log)) in
          let (_, v, f, r) = >>=-eq-ok (expect_peer m ip a address tcp_message) _ u q in
          subst (λ (s : Text). SameAddress ip s address) same
            ((expect_peer_iff m ip a address tcp_message u).0
              (ap (λ (p : Result (Unit {0}) × Log). p.0) f))

      complete : SameAddress ip seen address → (request_peer m ip prefix address log).0 ≡ ok tt
      complete h =
          let first = ran (curl_of prefix address) none ∷ log in
          let passed = (expect_peer m ip seen address tcp_message first).1 in
          let rest = λ (udp : Text). expect_peer m ip udp address udp_message in
          let second = run m (asker_of m prefix address) >>= rest in
          ap
            (λ p.
              (continue p (λ (tcp : Text). expect_peer m ip tcp address tcp_message >> second)).0)
            (curl_done log)
          ∙ ap (λ (r : Result (Unit {0})). (continue (r, passed) (λ _. second)).0)
              ((expect_peer_iff m ip seen address tcp_message first).1 h)
          ∙ ap (λ p. (continue p rest).0) (asker_done passed)
          ∙ (expect_peer_iff m ip seen address udp_message _).1 h
