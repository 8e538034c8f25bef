-- ===== src/Fixture/Resolver/Zone.antt =====
-- The zone that the resolver of scripts/network-fixture.py serves.
use landscape_openwrt.Base.{
  ℕ, ◌≡◌, refl, sym, subst, Bool, ◌&&◌, List, [], ◌∷◌, ◌++◌, keep_if, eqb, Text, codes, ◌==◌,
  ==_iff, Bool-cases, inl, inr,
}
use landscape_openwrt.Fixture.{dns_name, dns_a, dns_aaaa}
use landscape_openwrt.Fixture.Resolver.{Answer, type_a, type_aaaa, resolve}

abbrev pub record_of : ℕ → Text → Answer
record_of type data_text = record {
  name = dns_name ++ codes ".";
  type = type;
  ttl = 30;
  rdata = data_text;
}

-- The records of the zone.
abbrev pub zone : List Answer
zone = record_of type_a dns_a ∷ record_of type_aaaa dns_aaaa ∷ []

abbrev pub matches : Text → ℕ → Answer → Bool
matches name qtype a = name == a.name && eqb qtype a.type

abbrev host : Text
host = dns_name ++ codes "."

host-eq-keep_if : (qtype : ℕ) → resolve host qtype ≡ keep_if (matches host qtype) zone
unfolding resolve ◌==◌
host-eq-keep_if qtype = elim (Bool-cases (eqb qtype type_a)) [
  | inl a ↦ elim (Bool-cases (eqb qtype type_aaaa)) [
    | inl b ↦ rw a (rw b refl)
    | inr b ↦ rw a (rw b refl)
  ]
  | inr a ↦ elim (Bool-cases (eqb qtype type_aaaa)) [
    | inl b ↦ rw a (rw b refl)
    | inr b ↦ rw a (rw b refl)
  ]
]

-- The reply to a question has the records of the zone of this name and type, in their order, and no
-- other.
pub resolve-eq-keep_if :
    (name : Text) (qtype : ℕ) → resolve name qtype ≡ keep_if (matches name qtype) zone
unfolding resolve
resolve-eq-keep_if name qtype = elim (Bool-cases (name == host)) [
  | inl same ↦
      subst (λ (t : Text). resolve t qtype ≡ keep_if (matches t qtype) zone)
        (sym ((==_iff name host).0 same)) (host-eq-keep_if qtype)
  | inr other ↦ rw other refl
]
