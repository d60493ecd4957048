-- ===== src/Version/Parse.antt =====
-- Reading and printing versions (uma/version.go).
use uma_go_sdk.Base.{
  ◌≡◌, ◌≢◌, refl, ap, false, ◌↔◌, ◌||◌, ◌⊎◌, true, false, [], ◌∷◌, ◌++◌, append_assoc, arith, codes,
  Bytes,
}
use uma_go_sdk.Base.Int.{ℤ, pos, IsInt64, eqb_ℤ, eqb_ℤ_iff}
use uma_go_sdk.Go.Result.{Result, ok, err, panic}
use uma_go_sdk.Go.Strconv.{format_int, parse_int, parse_uint}
use uma_go_sdk.Go.Scan.{scan_int, scan_byte, NoDigit, scan_int-format_int}
use uma_go_sdk.Version.{
  ParsedVersion, parse_version, version_string, supports, is_version_supported, major_supported,
  get_supported_major_versions, contains, uma_protocol_version, select_lower_version,
}

-- A printed version is read back, whatever follows it that does not begin with a digit.
pub parse-string :
    (v : ParsedVersion) (rest : Bytes)
    → IsInt64 v.major
    → IsInt64 v.minor
    → NoDigit rest
    → parse_version (version_string v ++ rest) ≡ ok v
unfolding parse_version version_string scan_byte
parse-string v rest h k n =
    rw (append_assoc, scan_int-format_int v.major (b'.' ∷ (format_int v.minor ++ rest)) h refl)
      (rw (scan_int-format_int v.minor rest k n) refl)

supported_majors : get_supported_major_versions ≡ pos 1 ∷ pos 0 ∷ []
unfolding get_supported_major_versions parse_version scan_int scan_byte parse_int parse_uint
supported_majors = refl

supports_lem : (a : ℤ) → supports a ≡ (eqb_ℤ (pos 1) a || eqb_ℤ (pos 0) a || false)
unfolding supports contains
supports_lem a = rw supported_majors (ground arith)

pub supports_iff : (a : ℤ) → (supports a ≡ true) ↔ ((a ≡ pos 1) ⊎ (a ≡ pos 0))
supports_iff a = (
  λ h. ground (arith, supports_lem a, eqb_ℤ_iff (pos 1) a, eqb_ℤ_iff (pos 0) a),
  λ h. ground (arith, supports_lem a, eqb_ℤ_iff (pos 1) a, eqb_ℤ_iff (pos 0) a),
)

major_supported_inv :
    (r : Result ParsedVersion)
    → major_supported r ≡ true
    → (v : ParsedVersion) × (r ≡ ok v) × ((v.major ≡ pos 1) ⊎ (v.major ≡ pos 0))
unfolding major_supported
major_supported_inv (ok v) h = (v, refl, (supports_iff v.major).0 h)
major_supported_inv (err e) h = cc
major_supported_inv panic h = cc

-- A version is supported exactly when it parses to major version 1 or 0.
pub supported_iff :
    (s : Bytes)
    → (is_version_supported s ≡ true)
      ↔ ((v : ParsedVersion) × (parse_version s ≡ ok v) × ((v.major ≡ pos 1) ⊎ (v.major ≡ pos 0)))
unfolding is_version_supported
supported_iff s = (
  major_supported_inv (parse_version s),
  λ (v, parsed, major). rw parsed ((supports_iff v.major).1 major),
)

empty_unsupported : is_version_supported [] ≡ false
unfolding is_version_supported major_supported parse_version scan_int parse_int
empty_unsupported = refl

pub supported-ne-nil : (s : Bytes) → is_version_supported s ≡ true → s ≢ []
supported-ne-nil s h e = ground (arith, empty_unsupported, ap is_version_supported e)

pub own_version_supported : is_version_supported uma_protocol_version ≡ true
unfolding is_version_supported supports get_supported_major_versions contains parse_version scan_int
    scan_byte parse_int parse_uint uma_protocol_version version_string major_supported format_int
own_version_supported = refl

pub older_version_chosen :
    select_lower_version (codes "0.3") uma_protocol_version ≡ ok (codes "0.3")
unfolding select_lower_version parse_version scan_int scan_byte parse_int parse_uint
    uma_protocol_version version_string format_int
older_version_chosen = refl
