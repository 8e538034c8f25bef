-- ===== src/Fixture/Resolver.antt =====
-- `Resolver.resolve` of scripts/network-fixture.py.
pub mod Zone
use landscape_openwrt.Base.{ℕ, Bool, List, [], ◌∷◌, ◌++◌, if◌then◌else◌, eqb, Text, codes, ◌==◌}
use landscape_openwrt.Fixture.{dns_name, dns_a, dns_aaaa}

-- `QTYPE.A` and `QTYPE.AAAA`
abbrev pub type_a : ℕ
type_a = 1

abbrev pub type_aaaa : ℕ
type_aaaa = 28

-- A resource record: name, type, time to live and data.
pub record Answer : Type 0 where
  pub name : Text
  pub type : ℕ
  pub ttl : ℕ
  pub rdata : Text

abbrev pub add_if : Bool → Answer → List Answer → List Answer
add_if b a answers = if b then answers ++ a ∷ [] else answers

-- The answers of the reply to a question for `name`, the text of the question's name.
unfoldable pub resolve : Text → ℕ → List Answer
resolve name qtype =
    if name == (dns_name ++ codes ".")
    then add_if (eqb qtype type_aaaa)
        (record { name = name; type = type_aaaa; ttl = 30; rdata = dns_aaaa })
        (add_if (eqb qtype type_a) (record { name = name; type = type_a; ttl = 30; rdata = dns_a })
          [])
    else []
