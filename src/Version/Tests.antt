-- ===== src/Version/Tests.antt =====
-- Versions (uma/version.go) at concrete inputs.
use uma_go_sdk.Base.{arith, ◌≡◌, refl, true, none, some, [], ◌∷◌, codes, if◌then◌else◌}
use uma_go_sdk.Base.Int.{pos}
use uma_go_sdk.Go.Result.{ok}
use uma_go_sdk.Go.Strconv.{parse_int, parse_uint}
use uma_go_sdk.Go.Scan.{scan_int, scan_byte}
use uma_go_sdk.Version.{
  parse_version, is_version_supported, contains, select_highest_supported_version, supports,
  get_supported_major_versions,
}
use uma_go_sdk.Go.Json.{object, struct_of, JsonLib}
use uma_go_sdk.Version.ErrorBody.{
  error_fields, get_supported_major_versions_from_error_response_body,
}
use uma_go_sdk.Version.Negotiation.{IsBest, negotiated}
use uma_go_sdk.Uma.ToyJson.{toy_lib}
use uma_go_sdk.Version.Select.{select_highest_lem}

-- Input behind the second number is ignored.
trailing_input : is_version_supported (codes " +1.0beta") ≡ true
unfolding is_version_supported supports get_supported_major_versions contains parse_version scan_int
    scan_byte parse_int parse_uint
trailing_input = refl

select_highest_lem_example : select_highest_supported_version (pos 0 ∷ pos 7 ∷ pos 1 ∷ []) ≡ (
    if contains (pos 0 ∷ pos 7 ∷ pos 1 ∷ []) (pos 1)
    then some (codes "1.0")
    else if contains (pos 0 ∷ pos 7 ∷ pos 1 ∷ []) (pos 0)
    then some (codes "0.3")
    else none)
select_highest_lem_example = select_highest_lem (pos 0 ∷ pos 7 ∷ pos 1 ∷ [])

abbrev body_lib : JsonLib
body_lib = toy_lib (
    object (
      struct_of (
        error_fields (record {
          unsupported_version = codes "4.2";
          supported_major_versions = some (pos 0 ∷ pos 4 ∷ pos 1 ∷ []);
        }))))

negotiated_example :
    (get_supported_major_versions_from_error_response_body body_lib (codes "{}")
      ≡ ok (some (pos 0 ∷ pos 4 ∷ pos 1 ∷ [])))
    × IsBest
        (pos 0 ∷ pos 4 ∷ pos 1 ∷ [])
        (select_highest_supported_version (pos 0 ∷ pos 4 ∷ pos 1 ∷ []))
negotiated_example =
    negotiated body_lib (codes "4.2") (pos 0 ∷ pos 4 ∷ pos 1 ∷ []) (codes "{}")
      ((omega arith, omega arith), ((omega arith, omega arith), ((omega arith, omega arith), tt)))
      refl
