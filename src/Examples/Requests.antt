-- ===== src/Examples/Requests.antt =====
-- Requests and downloads on the toy platform.
use landscape_openwrt.Base.{
  ◌+◌, ◌*◌, ◌^◌, ltb, if◌then◌else◌, ◌≤◌, ◌<◌, ◌≡◌, ◌↔◌, refl, [], ◌∷◌, arith, true, All, Text,
  codes, Headers, type_error, raise, value_error, invalid_sleep, ◌==◌, ok, some,
}
use landscape_openwrt.Json.{Json, str, obj, end, field}
use landscape_openwrt.Platform.{Platform, http_failure, negative}
use landscape_openwrt.Io.{start, ◌>>◌}
use landscape_openwrt.Upstreams.Http.{
  request, retry_after, header, with_agent, backoff, is_retry_status, overflow_error,
}
use landscape_openwrt.Upstreams.Http.Delay.{backoff_grows}
use landscape_openwrt.Upstreams.Http.Round.{CanWait, sleeps, long_sleeps}
use landscape_openwrt.Upstreams.Http.Retry.{
  next_answers, first_settled, asked, request-eq-first_settled, request_bounds, request-below_zero,
}
use landscape_openwrt.Upstreams.Digest.{digest_of, verify_digest}
use landscape_openwrt.Upstreams.Digest.Laws.{verify_digest-eq-ok}
use landscape_openwrt.Upstreams.Inputs.{arches}
use landscape_openwrt.Upstreams.Main.{download_shared, download_arches}
use landscape_openwrt.Upstreams.Main.Downloads.{IsSound, downloads-Sound}
use landscape_openwrt.Examples.Toy.{toy, toy-IsLawful}

abbrev url : Text
url = codes "https://example.org/"

can_wait : All (CanWait toy) (next_answers toy url (with_agent []) 5 0)
unfolding retry_after
can_wait = (refl, (tt, (tt, (tt, (tt, tt)))))

request-eq-first_settled_example :
    ((request toy url [] start).0
      ≡ first_settled (next_answers toy url (with_agent []) 5 0) type_error)
    × ((request toy url [] start).1.calls ≡ 0 + asked (next_answers toy url (with_agent []) 5 0))
request-eq-first_settled_example = request-eq-first_settled toy url [] start can_wait

request_bounds_example :
    ((request toy url [] start).1.calls ≤ 0 + 5)
    × (sleeps (request toy url [] start).1.log ≤ 0 + 4)
    × (long_sleeps (request toy url [] start).1.log ≤ 0)
request_bounds_example = request_bounds toy url [] start toy-IsLawful

-- A platform whose network names a negative delay.
abbrev hasty_headers : Headers
hasty_headers = (codes "Retry-After", codes "-1") ∷ []

abbrev hasty : Platform
hasty = record toy { urlopen = λ n url hs. http_failure 503 hasty_headers }

retried : is_retry_status 503 ≡ true
unfolding is_retry_status
retried = refl

cannot_sleep : retry_after hasty (some hasty_headers) ≡ some (negative (2 ^ 54))
unfolding retry_after header ◌==◌
cannot_sleep = refl

request-below_zero_example :
    ((request hasty url [] start).0
      ≡ raise
          (if ltb (2 ^ 117) (2 ^ 54 * 10 ^ 9) then overflow_error else value_error invalid_sleep))
    × ((request hasty url [] start).1.calls ≡ 0 + 1)
request-below_zero_example =
    request-below_zero hasty url [] start 503 hasty_headers (2 ^ 54) refl retried cannot_sleep

backoff_grows_example : backoff 1 7 < backoff 2 5
backoff_grows_example = backoff_grows 1 7 5 (omega arith) (omega arith) (omega arith)

verify_digest-eq-ok_example :
    (verify_digest toy (1 ∷ []) (str (codes "sha256:1")) ≡ ok tt)
    ↔ (str (codes "sha256:1") ≡ str (digest_of toy (1 ∷ [])))
verify_digest-eq-ok_example = verify_digest-eq-ok toy toy-IsLawful (1 ∷ []) (str (codes "sha256:1"))

abbrev elf_sum : Json
elf_sum = str (codes "7000000000000000000000000000000000000000000000000000000000000000")

-- A resolved state whose checksums fit the answers of the network.
abbrev resolved : Json
resolved = obj (
    field (codes "passwall_url") (str url) (
      field (codes "passwall_sha256") elf_sum (
        field (codes "passwall_i18n_url") (str url) (
          field (codes "passwall_i18n_sha256") elf_sum (
            field (codes "dependency_key_url") (str url) (
              field (codes "dependency_key_sha256") elf_sum
                (field (codes "arches") (obj end) end)))))))

downloads-Sound_example :
    IsSound toy resolved
      ((download_shared toy resolved >> download_arches toy resolved arches) start).1.log
downloads-Sound_example = downloads-Sound toy toy-IsLawful resolved start tt
