-- ===== src/Protocol/KycStatus.antt =====
-- uma/protocol/kyc_status.go. `KycStatus` is an `int`: `other` is a value with no constant.
pub mod Json
use uma_go_sdk.Base.{◌≡◌, ◌≢◌, refl, Bytes, codes, eqb, if◌then◌else◌}
use uma_go_sdk.Base.Int.{ℤ}

pub data KycStatus : Type 0 where
  unknown not_verified pending verified : KycStatus
  other : ℤ → KycStatus

unfoldable pub string_value : KycStatus → Bytes
string_value unknown = codes "UNKNOWN"
string_value not_verified = codes "NOT_VERIFIED"
string_value pending = codes "PENDING"
string_value verified = codes "VERIFIED"
string_value (other n) = codes "undefined"

unfoldable pub marshal_bytes : KycStatus → Bytes
unfolding string_value
marshal_bytes k = string_value k

unfoldable pub unmarshal_bytes : Bytes → KycStatus
unmarshal_bytes s =
    if eqb s (codes "UNKNOWN")
    then unknown
    else if eqb s (codes "NOT_VERIFIED")
    then not_verified
    else if eqb s (codes "PENDING")
    then pending
    else if eqb s (codes "VERIFIED")
    then verified
    else unknown

-- What a status is read back as: a value with no constant comes back as unknown.
abbrev pub known : KycStatus → KycStatus
known (other n) = unknown
known k = k

-- A status that has a constant is read back from its bytes; any other is read back as unknown.
pub kyc-unmarshal-marshal : (k : KycStatus) → unmarshal_bytes (marshal_bytes k) ≡ known k
unfolding unmarshal_bytes marshal_bytes eqb
kyc-unmarshal-marshal unknown = refl
kyc-unmarshal-marshal not_verified = refl
kyc-unmarshal-marshal pending = refl
kyc-unmarshal-marshal verified = refl
kyc-unmarshal-marshal (other n) = refl
