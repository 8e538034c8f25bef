-- ===== src/Ip.antt =====
-- The module `ipaddress`, which the program calls and does not implement.
use landscape_openwrt.Base.{ℕ, Bool, Option, Text, Result}

-- Its networks and addresses.
pub record Ip (Net Addr : Type 0) : Type 0 where
  -- `ip_network(text)` and `ip_address(text)`
  pub network : Text → Result Net
  pub address : Text → Result Addr
  pub version : Net → ℕ
  pub address_version : Addr → ℕ
  -- `a.subnet_of(b)`, a `TypeError` for different versions.
  pub subnet_of : Net → Net → Result Bool
  -- `address in network`
  pub contains : Net → Addr → Bool
  pub network_address : Net → Addr
  pub broadcast_address : Net → Addr
  pub same_network : Net → Net → Bool
  pub same_address : Addr → Addr → Bool
  -- `address.ipv4_mapped`
  pub ipv4_mapped : Addr → Option Addr
