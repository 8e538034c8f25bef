-- ===== src/Fixture/Advert.antt =====
-- The router advertisements of `serve` in scripts/network-fixture.py.
use landscape_openwrt.Base.{ℕ, zero, suc, ◌+◌, List, [], ◌∷◌, ◌++◌, if◌then◌else◌, eqb, Text, codes}
use landscape_openwrt.Script.{Machine}

-- `ICMPv6NDOptPrefixInfo`, with `L=1` and `A=1`.
pub record PrefixInfo : Type 0 where
  pub prefix : Text
  pub prefixlen : ℕ
  pub validlifetime : ℕ
  pub preferredlifetime : ℕ

-- The packet, its layers and options in order.
pub record Packet : Type 0 where
  pub src_mac : Text
  pub dst_mac : Text
  pub src : Text
  pub dst : Text
  pub hlim : ℕ
  pub routerlifetime : ℕ
  pub lladdr : Text
  pub prefixes : List PrefixInfo

module _ (m : Machine) where
  -- `f'2001:db8:80:{index}::'`
  abbrev pub prefix_text : ℕ → Text
  prefix_text index = codes "2001:db8:80:" ++ (m.show index ++ codes "::")

  unfoldable pub prefix_info : ℕ → ℕ → PrefixInfo
  prefix_info stage index = record {
    prefix = prefix_text index;
    prefixlen = 64;
    validlifetime = 300;
    preferredlifetime = if eqb index stage then 180 else 0;
  }

  -- `for index in range(first, first + count)`
  unfoldable pub prefixes_from : ℕ → ℕ → ℕ → List PrefixInfo
  prefixes_from stage first zero = []
  prefixes_from stage first (suc count) =
      prefix_info stage first ∷ prefixes_from stage (first + 1) count

  unfoldable pub advertisement : Text → ℕ → Packet
  advertisement mac stage = record {
    src_mac = mac;
    dst_mac = codes "33:33:00:00:00:01";
    src = codes "fe80::1";
    dst = codes "ff02::1";
    hlim = 255;
    routerlifetime = 0;
    lladdr = mac;
    prefixes = prefixes_from stage 1 stage;
  }
