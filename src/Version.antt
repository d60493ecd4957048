-- ===== src/Version.antt =====
-- uma/version.go: protocol versions and their negotiation.
pub mod Parse
pub mod Select
pub mod ErrorBody
pub mod Negotiation
mod Tests
use uma_go_sdk.Base.{
  ℕ, Bool, true, false, ◌&&◌, ◌||◌, Option, none, some, List, [], ◌∷◌, ◌++◌, Bytes, codes,
  if◌then◌else◌,
}
use uma_go_sdk.Base.Int.{ℤ, pos, ltb_ℤ, eqb_ℤ}
use uma_go_sdk.Go.Result.{Result, ok, err, panic, library_error, or_error, ◌>>=◌}
use uma_go_sdk.Go.Strconv.{format_int}
use uma_go_sdk.Go.Scan.{scan_int, scan_byte}

abbrev pub major_version : ℤ
major_version = pos 1

abbrev pub minor_version : ℤ
minor_version = pos 0

abbrev pub backcompat_versions : List Bytes
backcompat_versions = codes "0.3" ∷ []

pub record ParsedVersion : Type 0 where
  pub major : ℤ
  pub minor : ℤ

-- fmt.Sscanf(version, "%d.%d", &major, &minor): input behind the second number is ignored.
unfoldable pub parse_version : Bytes → Result ParsedVersion
parse_version version = do
  (major, rest) ← or_error (scan_int version) library_error
  rest' ← or_error (scan_byte b'.' rest) library_error
  (minor, _) ← or_error (scan_int rest') library_error
  ok (record { major = major; minor = minor })

-- (v *ParsedVersion) String()
unfoldable pub version_string : ParsedVersion → Bytes
version_string v = format_int v.major ++ b'.' ∷ format_int v.minor

unfoldable pub uma_protocol_version : Bytes
unfolding version_string
uma_protocol_version = version_string (record { major = major_version; minor = minor_version })

-- The loop over the back-compatible versions; one that does not parse is left out.
majors : List Bytes → List ℤ
majors [] = []
majors (version ∷ versions) = elim (parse_version version) [
  | ok v ↦ v.major ∷ majors versions
  | _ ↦ majors versions
]

unfoldable pub get_supported_major_versions : List ℤ
unfolding majors
get_supported_major_versions = major_version ∷ majors backcompat_versions

-- Membership in the map of the supported major versions.
unfoldable pub contains : List ℤ → ℤ → Bool
contains [] a = false
contains (x ∷ xs) a = eqb_ℤ x a || contains xs a

unfoldable pub supports : ℤ → Bool
supports = contains get_supported_major_versions

first_of_major : ℤ → List Bytes → Option ParsedVersion
first_of_major major [] = none
first_of_major major (version ∷ versions) =
    let rest = first_of_major major versions in
    elim (parse_version version) [ ok v ↦ if eqb_ℤ v.major major then some v else rest | _ ↦ rest ]

-- The pointer that `ParseVersion` returns with its error ignored: nil on an error.
parsed_or_nil : Result ParsedVersion → Option ParsedVersion
parsed_or_nil (ok v) = some v
parsed_or_nil _ = none

unfoldable pub get_highest_supported_version_for_major_version : ℤ → Option ParsedVersion
unfolding first_of_major parsed_or_nil
get_highest_supported_version_for_major_version major =
    if eqb_ℤ major major_version
    then parsed_or_nil (parse_version uma_protocol_version)
    else first_of_major major backcompat_versions

-- One round of the loop of `SelectHighestSupportedVersion`.
raise_version : Option ParsedVersion → ℤ → Option ParsedVersion
raise_version none other = get_highest_supported_version_for_major_version other
raise_version (some highest) other =
    if ltb_ℤ highest.major other
    then get_highest_supported_version_for_major_version other
    else some highest

select_loop : Option ParsedVersion → List ℤ → Option ParsedVersion
unfolding raise_version
select_loop highest [] = highest
select_loop highest (other ∷ others) =
    select_loop (if supports other then raise_version highest other else highest) others

print_version : Option ParsedVersion → Option Bytes
print_version none = none
print_version (some v) = some (version_string v)

unfoldable pub select_highest_supported_version : List ℤ → Option Bytes
unfolding select_loop print_version
select_highest_supported_version others = print_version (select_loop none others)

-- version1 > version2
is_higher : ParsedVersion → ParsedVersion → Bool
is_higher v w = ltb_ℤ w.major v.major || (eqb_ℤ v.major w.major && ltb_ℤ w.minor v.minor)

unfoldable pub select_lower_version : Bytes → Bytes → Result Bytes
unfolding is_higher
select_lower_version s t = do
  v ← parse_version s
  w ← parse_version t
  ok (if is_higher v w then t else s)

major_supported : Result ParsedVersion → Bool
major_supported (ok v) = supports v.major
major_supported _ = false

unfoldable pub is_version_supported : Bytes → Bool
unfolding major_supported
is_version_supported version = major_supported (parse_version version)
