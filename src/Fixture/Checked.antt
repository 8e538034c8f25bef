-- ===== src/Fixture/Checked.antt =====
-- What a container has that `check` passes.
use landscape_openwrt.Base.{
  some-inj, ℕ, ◌≡◌, sym, ap, ◌∙◌, subst, some, ◌∷◌, Text, codes, ◌&&◌, is_inside, assert, Result,
  ok,
}
use landscape_openwrt.Action.{lift, ◌>>=◌}
use landscape_openwrt.Action.Laws.{>>=-eq-ok, Reaches-bind, Reaches-then}
use landscape_openwrt.Script.{Log, Machine, note, printed, wrote, under}
use landscape_openwrt.Ip.{Ip}
use landscape_openwrt.Fixture.{dns_a, dns_aaaa, command, inside}
use landscape_openwrt.Fixture.Address.{verify, stage_prefix}
use landscape_openwrt.Fixture.Address.Found.{
  IsPreferred, IsLastSource, verify-IsVerified, verify-IsLastSource,
}
use landscape_openwrt.Fixture.Management.{management, public_management}
use landscape_openwrt.Fixture.Main.{check}

abbrev pub renewal_passed : Text
renewal_passed = codes "PASS: prefix renewal deprecates the old source and selects the new one"

-- What is written to a file is read back at once, and the text `2` is the number 2.
pub record ReadsBack (m : Machine) : Type 0 where
  pub file_wrote : (path text : Text) (log : Log) → m.file (wrote path text ∷ log) path ≡ some text
  pub read_int_two : m.read_int (codes "2") ≡ some 2

module _ (m : Machine) {Net Addr : Type 0} (ip : Ip Net Addr) (name root : Text) where
  -- The last that was done: the stage file was set to 2 and the address verified behind that. The address
  -- is preferred in the second prefix, and behind the request in which the target saw it there are only
  -- two messages.
  abbrev pub IsRenewed : Log → Type 0
  IsRenewed after =
      (before : Log) × (u : Log) × (address : Text) × (verify m name ip root
          (wrote (under root (codes "prefix-stage")) (codes "2") ∷ before)
        ≡ (ok address, u))
      × IsPreferred m name (stage_prefix m 2) address
      × IsLastSource m name ip root address u
      × (after ≡ printed renewal_passed ∷ u)

  verified-IsPreferred :
      (reads : ReadsBack m) (before u : Log) (address : Text)
      → verify m name ip root (wrote (under root (codes "prefix-stage")) (codes "2") ∷ before)
        ≡ (ok address, u)
      → IsPreferred m name (stage_prefix m 2) address
  verified-IsPreferred reads before u address e =
      let path = under root (codes "prefix-stage") in
      let (text, stage, found, read, preferred, _) =
        verify-IsVerified m name ip root address (wrote path (codes "2") ∷ before) u e in
      let text_eq : text ≡ codes "2" =
        some-inj text (codes "2") (sym found ∙ reads.file_wrote path (codes "2") before) in
      let stage_eq : stage ≡ 2 =
        some-inj stage 2 (sym read ∙ ap m.read_int text_eq ∙ reads.read_int_two) in
      subst (λ (n : ℕ). IsPreferred m name (stage_prefix m n) address) stage_eq preferred

  renew-IsRenewed :
      (reads : ReadsBack m) (before after : Log)
      → (verify m name ip root >>= λ _. note (printed renewal_passed))
          (wrote (under root (codes "prefix-stage")) (codes "2") ∷ before)
        ≡ (ok tt, after)
      → IsRenewed after
  renew-IsRenewed reads before after h =
      let (address, u, e, last) =
        >>=-eq-ok (verify m name ip root) (λ _. note (printed renewal_passed))
          (wrote (under root (codes "prefix-stage")) (codes "2") ∷ before) h in
      (
        before,
        u,
        address,
        e,
        verified-IsPreferred reads before u address e,
        verify-IsLastSource m name ip root address _ u e,
        sym (ap (λ (p : Result (Unit {0}) × Log). p.1) last),
      )

  -- If a file that was written reads back, then the check passes only if in the end, with only two
  -- messages behind it, the target answers a request from an address of the container with that
  -- address, which the container showed as preferred in the second prefix once the stage file was set to
  -- 2.
  pub check-IsRenewed :
      (log after : Log) → ReadsBack m → check m ip name root log ≡ (ok tt, after) → IsRenewed after
  unfolding check
  check-IsRenewed log after reads h =
      let P = IsRenewed in
      Reaches-bind P (inside m name _) _
        (λ lookup.
          Reaches-then P
            (lift (assert (is_inside dns_a lookup && is_inside dns_aaaa lookup) lookup)) _
            (Reaches-then P (note (printed _)) _ (
              Reaches-bind P (verify m name ip root) _ λ address. Reaches-then P (command m _) _ (
                Reaches-then P (public_management m name address) _ (
                  Reaches-then P (management m name) _ (
                    Reaches-then P (inside m name _) _ (
                      Reaches-then P (inside m name _) _ (
                        Reaches-then P (verify m name ip root) _ (
                          Reaches-then P (note (printed _)) _
                            (λ _ w v q. renew-IsRenewed reads w v q))))))))))
        tt log after h
