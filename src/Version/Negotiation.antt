-- ===== src/Version/Negotiation.antt =====
-- The negotiation of a version from an error body (uma/version.go).
use uma_go_sdk.Base.{
  ◌≡◌, refl, sym, ◌∙◌, Bool, true, false, Option, none, some, List, arith, Bytes, codes,
  if◌then◌else◌, inl, inr,
}
use uma_go_sdk.Base.Int.{ℤ, pos, IsInt64, ◌≤ℤ◌}
use uma_go_sdk.Go.Result.{ok}
use uma_go_sdk.Go.Strconv.{parse_int, parse_uint}
use uma_go_sdk.Go.Scan.{scan_int, scan_byte}
use uma_go_sdk.Go.Json.{JsonLib, object, struct_of}
use uma_go_sdk.Go.Json.Slices.{AllOf}
use uma_go_sdk.Version.{
  ParsedVersion, parse_version, supports, contains, select_highest_supported_version,
}
use uma_go_sdk.Version.Parse.{supports_iff}
use uma_go_sdk.Version.Select.{select_highest_lem}
use uma_go_sdk.Version.ErrorBody.{
  error_fields, get_supported_major_versions_from_error_response_body, error_body-read,
}

-- A version whose major version both parties support, and none that both support is higher; there is
-- none when they have no major version in common.
abbrev pub IsBest : List ℤ → Option Bytes → Type 0
IsBest others none = (major : ℤ) → supports major ≡ true → contains others major ≡ false
IsBest others (some version) =
    (v : ParsedVersion) × (parse_version version ≡ ok v)
    × (supports v.major ≡ true)
    × (contains others v.major ≡ true)
    × ((major : ℤ) → supports major ≡ true → contains others major ≡ true → major ≤ℤ v.major)

not_both : false ≡ true → ⊥
not_both h = cc

chosen-IsBest :
    (others : List ℤ) (a b : Bool)
    → contains others (pos 1) ≡ a
    → contains others (pos 0) ≡ b
    → IsBest others (if a then some (codes "1.0") else if b then some (codes "0.3") else none)
unfolding parse_version scan_int scan_byte parse_int parse_uint
chosen-IsBest others true b e f = (
  record { major = pos 1; minor = pos 0 },
  refl,
  (supports_iff (pos 1)).1 (inl refl),
  e,
  λ m s h. elim ((supports_iff m).0 s) [ inl q ↦ rw q (omega arith) | inr q ↦ rw q (omega arith) ],
)
chosen-IsBest others false true e f = (
  record { major = pos 0; minor = pos 3 },
  refl,
  (supports_iff (pos 0)).1 (inr refl),
  f,
  λ m s h. elim ((supports_iff m).0 s) [
    | inl q ↦ absurd (not_both (sym e ∙ rw (sym q) h))
    | inr q ↦ rw q (omega arith)
  ],
)
chosen-IsBest others false false e f =
    λ m s. elim ((supports_iff m).0 s) [ inl q ↦ rw q e | inr q ↦ rw q f ]

-- A party that is told, in an error body that stands for the error, which major versions the other one
-- supports reads these, all int64, and selects a version whose major version both support, and none
-- that both support is higher; it selects none exactly when they have no major version in common.
pub negotiated :
    (lib : JsonLib) (version : Bytes) (majors : List ℤ) (body : Bytes)
    → AllOf IsInt64 (some majors)
    → lib.read body
      ≡ ok (
          object (
            struct_of (
              error_fields (record {
                unsupported_version = version;
                supported_major_versions = some majors;
              }))))
    → (get_supported_major_versions_from_error_response_body lib body ≡ ok (some majors))
      × IsBest majors (select_highest_supported_version majors)
negotiated lib version majors body ints read = (
  error_body-read lib _ body ints read,
  rw (select_highest_lem majors)
      (chosen-IsBest majors (contains majors (pos 1)) (contains majors (pos 0)) refl refl),
)
