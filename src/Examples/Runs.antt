-- ===== src/Examples/Runs.antt =====
-- Runs of `main`: one that ends with a handler that is no ELF file, and one that returns.
use landscape_openwrt.Base.{
  ltb, false, eqb, if◌then◌else◌, starts_with, ◌≡◌, refl, [], ◌∷◌, codes, Result, ok,
}
use landscape_openwrt.Base.Dict
use landscape_openwrt.Json.{items, Json}
use landscape_openwrt.Platform.{Platform, IsLawful, response, http_failure}
use landscape_openwrt.Io.{touch, World, start}
use landscape_openwrt.Upstreams.Resolve.{resolve}
use landscape_openwrt.Upstreams.Resolve.{
  resolve_base, tag_pages, check_base, resolve_passwall, passwall_packages, strip_revision,
  apk_version, resolve_landscape, check_key, source_revision, state_fields, bare_digest,
  resolve_arches, seal_state, api_headers, is_ascii_digit,
}
use landscape_openwrt.Upstreams.Http.{
  json_request, request, attempt_from, open_url, handle_answer, is_retry_status,
}
use landscape_openwrt.Json.{elements, to_list, index, as_text, to_dict, get, truthy, flag, of_dict}
use landscape_openwrt.Upstreams.Version.{
  latest_stable_tag, is_stable_tag, text_at, newest_by, with_key, version_key, int_of, digits_from,
  max_from, key_lt, latest_of,
}
use landscape_openwrt.Base.{
  keep, ◌==◌, lstrip, split_on, each, remove_prefix, remove_suffix, split_words, words_from,
  is_space, splitlines, lines_from, is_line_end, join, after_prefix,
}
use landscape_openwrt.Regex.{fullmatch, literal, nullable, derivative, times}
use landscape_openwrt.Upstreams.Release.{
  newest_stable_release, pick_release, has_tag, get_or, is_published, newest_of, is_newer, sorted,
  insert_sorted, notice_skipped, select_asset, has_name, only_asset, text_lt,
}
use landscape_openwrt.Upstreams.Digest.{or_empty, verify_digest, digest_of}
use landscape_openwrt.Upstreams.Inputs.{
  resolve_arch_inputs, select_handler, is_named, handler_of, feed_url, short_version,
}
use landscape_openwrt.Upstreams.Checksum.{rootfs_checksum, only_checksum, matches_in, checksum_of}
use landscape_openwrt.Upstreams.Registry.{open_registry, token_service, is_text}
use landscape_openwrt.Upstreams.State.{
  flatten_outputs, add_arches, add_arch, install_inputs, inputs_digest, select_keys,
}
use landscape_openwrt.Upstreams.Main.{
  elf_magic, publish_outputs, append_outputs, Args, main, decide_build, settle,
  is_first_publication, compare_published, download_shared, download, download_arches,
  download_arch, download_handler,
}
use landscape_openwrt.Upstreams.Main.Complete.{IsComplete, main-IsComplete}
use landscape_openwrt.Examples.Toy.{toy-IsLawful}
use landscape_openwrt.Examples.Resolved.{github}

-- The same releases, but no image, and a handler that is no ELF file.
abbrev unpublished : Platform
unpublished = record github {
  urlopen = λ n url hs. if eqb n 8 then http_failure 404 [] else response (n ∷ []) [];
}

abbrev args : Args
args = record {
  image = codes "ghcr.io/otaku-say/landscape-openwrt";
  force = false;
  first_build = false;
}

abbrev failed_run : Result (Unit {0}) × World
failed_run = main unpublished args start

-- The same releases, no image, and downloads that all begin like an ELF file.
abbrev built : Platform
built = record github {
  urlopen = λ n url hs.
      if eqb n 8
      then http_failure 404 []
      else if ltb 8 n
      then response elf_magic []
      else response (n ∷ []) [];
}

built-IsLawful : IsLawful built
built-IsLawful = record {
  digest_length = λ b. refl;
  digest_hex = λ b. refl;
  ascii_decimal = toy-IsLawful.ascii_decimal;
  random_lt = toy-IsLawful.random_lt;
}

abbrev whole_run : Result (Unit {0}) × World
whole_run = main built args start

whole : whole_run ≡ (ok tt, whole_run.1)
unfolding touch publish_outputs append_outputs flatten_outputs add_arches add_arch main decide_build
    settle is_first_publication compare_published open_registry token_service download_shared
    download download_arches download_arch download_handler install_inputs items Dict.restrict
    starts_with resolve resolve_base tag_pages json_request request attempt_from open_url
    handle_answer is_retry_status elements to_list latest_stable_tag keep is_stable_tag text_at
    index as_text to_dict Dict.lookup ◌==◌ fullmatch literal nullable derivative times newest_by
    with_key version_key int_of digits_from lstrip split_on each max_from key_lt latest_of
    check_base resolve_passwall newest_stable_release pick_release has_tag get_or get or_empty
    truthy is_published flag newest_of is_newer sorted insert_sorted notice_skipped
    passwall_packages select_asset has_name only_asset strip_revision apk_version remove_prefix
    remove_suffix resolve_landscape check_key verify_digest digest_of source_revision state_fields
    bare_digest resolve_arches resolve_arch_inputs rootfs_checksum only_checksum matches_in
    checksum_of split_words words_from is_space splitlines lines_from is_line_end select_handler
    is_named is_text handler_of Dict.insert of_dict seal_state inputs_digest select_keys api_headers
    feed_url short_version join is_ascii_digit after_prefix text_lt
whole = refl

main-IsComplete_example :
    (state : Json) × (u : World) × (resolve built start ≡ (ok state, u))
    × IsComplete built state whole_run.1.log
main-IsComplete_example = main-IsComplete built built-IsLawful args start whole_run.1 whole
