-- ===== src/Examples/Cases.antt =====
-- A case that passes.
use landscape_openwrt.Base.{
  ◌≡◌, refl, some, List, [], ◌∷◌, ◌++◌, All, Text, codes, ◌==◌, split_on, join, splitlines,
  lines_from, is_line_end, is_inside, starts_with, after_prefix, is_space, keep, ok,
}
use landscape_openwrt.Base.Dict
use landscape_openwrt.Base.Dict.{Dict}
use landscape_openwrt.Regex.{fullmatch, literal, times}
use landscape_openwrt.Platform.{Platform}
use landscape_openwrt.Json.{
  index, get, elements, truthy, to_list, to_dict, as_text, of_list, of_dict,
}
use landscape_openwrt.Upstreams.Version.{text_at}
use landscape_openwrt.Upstreams.Release.{get_or}
use landscape_openwrt.Upstreams.Registry.{has_key, is_text}
use landscape_openwrt.Compose.{
  escape, resolved_or, check_variable, check_escaped, check_defaults, is_log_level, check_log_level,
  check_unpublished, check_options, check_bridge, check_edge, validate_config,
}
use landscape_openwrt.Compose.Network.{
  octets_of, check_mac, in_ranges, check_host, is_entry_of, check_subnet, check_hosts, check_family,
  validate_network,
}
use landscape_openwrt.Compose.Volumes.{
  resolved_at, mounts_from, mounts_of, check_socket, check_volume, check_volumes,
}
use landscape_openwrt.Compose.Cases.{
  Docker, is_assignment, replace_lines, count_assignments, override_lines, override, name_rest,
  variables_of, lists_name, split_first, resolved_of, check_case, check_cases,
}
use landscape_openwrt.Compose.Checked.{IsAccepted, check_cases-AreAccepted}
use landscape_openwrt.Examples.Toy.{toy}
use landscape_openwrt.Examples.Compositions.{toy_ip, config, environment}

abbrev printed_lines : Dict Text → Text
printed_lines [] = []
printed_lines ((key, value) ∷ more) = key ++ (codes "=" ++ (value ++ (10 ∷ printed_lines more)))

abbrev compose : Docker
compose = record {
  config = λ file kept. ok file;
  environment = λ file kept. ok (printed_lines environment);
}

abbrev reader : Platform
reader = record toy { loads = λ bytes. some config }

abbrev source : Text
source = codes "LAND_ROOT_PASSWORD='x'" ++ (10 ∷ codes "TZ=UTC")

abbrev list : List (Dict Text)
list = ((codes "LAND_ROOT_PASSWORD", codes "a$b") ∷ []) ∷ []

output_read : resolved_of [] (splitlines (printed_lines environment)) ≡ environment
unfolding resolved_of splitlines lines_from is_line_end split_first is_inside starts_with
    after_prefix Dict.insert ◌==◌
output_read = refl

passed : check_cases reader compose [] toy_ip source list ≡ ok tt
unfolding check_cases check_case override override_lines replace_lines count_assignments
    is_assignment variables_of name_rest lists_name split_first resolved_of split_on join splitlines
    lines_from is_line_end is_inside starts_with after_prefix Dict.restrict validate_network
    check_mac octets_of check_family check_subnet check_hosts check_host fullmatch literal times
    keep validate_config check_escaped escape check_log_level is_log_level check_variable
    check_unpublished check_defaults resolved_or check_edge check_options check_bridge mounts_of
    mounts_from check_socket check_volumes check_volume is_text is_space resolved_at text_at get_or
    has_key index get elements truthy to_list to_dict of_list of_dict as_text in_ranges is_entry_of
    Dict.lookup Dict.insert ◌==◌
passed = refl

check_cases-AreAccepted_example : All (IsAccepted reader compose [] toy_ip source) list
check_cases-AreAccepted_example =
    check_cases-AreAccepted reader compose [] toy_ip source list passed
