-- ===== src/Examples/Sockets.antt =====
-- A host whose sockets pass the test.
use landscape_openwrt.Base.{
  ℕ, ◌≡◌, refl, [], eqb, All, codes, split_on, starts_with, after_prefix, is_inside, ok,
}
use landscape_openwrt.Script.{int}
use landscape_openwrt.Management.{
  Network, check_status, check_closed, check_banner, check_unused, check_host, check_hosts, run,
}
use landscape_openwrt.Management.Reachable.{IsReachable, run-AreReachable}
use landscape_openwrt.Examples.Bench.{bench}

abbrev tidy : Network
tidy = record {
  status = λ log url. ok 200;
  banner = λ log host port. ok (codes "SSH-2.0-dropbear");
  is_open = λ log host port. eqb port 1;
}

passed :
    run bench tidy (codes "a,b") (codes "1") (codes "2") (codes "3") []
    ≡ (ok tt, (run bench tidy (codes "a,b") (codes "1") (codes "2") (codes "3") []).1)
unfolding run check_hosts check_host check_status check_banner check_unused check_closed split_on
    starts_with after_prefix is_inside
passed = refl

run-AreReachable_example :
    (a : ℕ) × (b : ℕ) × (c : ℕ) × (int bench (codes "1") ≡ ok a)
    × (int bench (codes "2") ≡ ok b)
    × (int bench (codes "3") ≡ ok c)
    × All (IsReachable bench tidy a b c) (split_on (λ x. eqb x b',') (codes "a,b"))
run-AreReachable_example =
    run-AreReachable bench tidy (codes "a,b") (codes "1") (codes "2") (codes "3") []
      (run bench tidy (codes "a,b") (codes "1") (codes "2") (codes "3") []).1 passed
