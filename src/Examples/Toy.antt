-- ===== src/Examples/Toy.antt =====
-- A platform to run the program on: ASCII digits, a digest that depends on the first byte only, and a
-- network that answers 503 once and an ELF header from then on.
use landscape_openwrt.Base.{
  true, ℕ, zero, suc, ◌+◌, ◌-◌, ◌%◌, ◌^◌, ◌≡◌, refl, ◌&&◌, Option, none, some, [], ◌∷◌, arith, leb,
  if◌then◌else◌, codes, Bytes, Text, ok, all, length,
}
use landscape_openwrt.Json.{obj, end}
use landscape_openwrt.Platform.{
  Platform, IsLawful, Float, negative, ticks, Answer, response, http_failure, is_hex,
}
use landscape_openwrt.Upstreams.Main.{elf_magic}

abbrev zeros : ℕ → Text
zeros zero = []
zeros (suc n) = b'0' ∷ zeros n

abbrev pub toy_digest : Bytes → Text
toy_digest [] = b'a' ∷ zeros 63
toy_digest (b ∷ bs) = (b'0' + b % 10) ∷ zeros 63

abbrev pub toy_answer : ℕ → Answer
toy_answer zero = http_failure 503 []
toy_answer (suc n) = response elf_magic []

abbrev pub toy_float : Text → Option Float
toy_float (c ∷ s) =
    if leb b'0' c && leb c b'9' then some (ticks (c - b'0')) else some (negative (2 ^ 54))
toy_float [] = none

abbrev pub toy_environ : Text → Option Text
toy_environ name = none

abbrev pub toy : Platform
toy = record {
  decimal = λ c. if leb b'0' c && leb c b'9' then some (c - b'0') else none;
  hexdigest = toy_digest;
  encode = λ s. s;
  decode = λ b. some b;
  b64encode = λ b. b;
  loads = λ b. some (obj end);
  format = λ j. codes "{}";
  dumps_indented = λ j. [];
  dumps_indented_sorted = λ j. [];
  dumps_sorted = λ d. [];
  urlencode = λ d. [];
  unquote = λ s. s;
  parse_float = toy_float;
  urlopen = λ n url hs. toy_answer n;
  random = λ n. n % 1000;
  refused = λ n path. none;
  environ = toy_environ;
  now = codes "2026-01-01T00:00:00+00:00";
  git_log = ok (codes "0123abc");
}

digest_hex : (b : Bytes) → all is_hex (toy_digest b) ≡ true
digest_hex [] = refl
digest_hex (b ∷ bs) = ground arith

digest_length : (b : Bytes) → length (toy_digest b) ≡ 64
digest_length [] = refl
digest_length (b ∷ bs) = refl

pub toy-IsLawful : IsLawful toy
toy-IsLawful = record {
  digest_length = digest_length;
  digest_hex = digest_hex;
  ascii_decimal = λ c h. refl;
  random_lt = λ n. omega arith;
}
