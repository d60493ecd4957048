-- ===== src/Version/ErrorBody.antt =====
-- The error of an unsupported version and its JSON form (uma/version.go).
use uma_go_sdk.Base.{◌≡◌, Option, some, List, [], ◌∷◌, ◌++◌, Bytes, codes, eqb}
use uma_go_sdk.Base.Int.{ℤ, IsInt64}
use uma_go_sdk.Go.Result.{Result, ok, ◌>>=◌}
use uma_go_sdk.Go.Json.{Json, JsonLib, text, object, get_member, struct_of}
use uma_go_sdk.Go.Json.Decode.{decode_text, decode_int, decode_struct, encode_int}
use uma_go_sdk.Go.Json.Slices.{AllOf, encode_slice, decode_slice, decode-encode_slice}
use uma_go_sdk.Go.Json.Laws.{get-struct_of, or_else-none, decode-int}

-- The slice may be nil.
pub record UnsupportedVersionError : Type 0 where
  pub unsupported_version : Bytes
  pub supported_major_versions : Option (List ℤ)

-- (e UnsupportedVersionError) Error()
unfoldable pub error_text : UnsupportedVersionError → Bytes
error_text e = codes "unsupported version: " ++ e.unsupported_version

unfoldable pub error_fields : UnsupportedVersionError → List (Bytes × Option Json)
error_fields e =
    (codes "unsupportedVersion", some (text e.unsupported_version))
    ∷ (codes "supportedMajorVersions", some (encode_slice encode_int e.supported_major_versions))
    ∷ []

unfoldable pub decode_error : Json → Result UnsupportedVersionError
decode_error v = do
  ms ← decode_struct (some v)
  version ← decode_text (get_member (codes "unsupportedVersion") ms)
  majors ← decode_slice decode_int (get_member (codes "supportedMajorVersions") ms)
  ok (record { unsupported_version = version; supported_major_versions = majors })

unfoldable pub get_supported_major_versions_from_error_response_body :
    JsonLib → Bytes → Result (Option (List ℤ))
get_supported_major_versions_from_error_response_body lib body = do
  document ← lib.read body
  response ← decode_error document
  ok response.supported_major_versions

-- The major versions of an error body that stands for an error are those of the error.
pub error_body-read :
    (lib : JsonLib) (e : UnsupportedVersionError) (body : Bytes)
    → AllOf IsInt64 e.supported_major_versions
    → lib.read body ≡ ok (object (struct_of (error_fields e)))
    → get_supported_major_versions_from_error_response_body lib body ≡ ok e.supported_major_versions
unfolding get_supported_major_versions_from_error_response_body decode_error error_fields
    decode_struct eqb decode_text
error_body-read lib e body ints read = simp (
  read,
  get-struct_of,
  or_else-none,
  decode-encode_slice IsInt64 encode_int decode_int decode-int e.supported_major_versions ints,
)
