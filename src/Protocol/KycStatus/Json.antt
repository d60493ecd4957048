-- ===== src/Protocol/KycStatus/Json.antt =====
-- The JSON form of a KYC status (MarshalJSON and UnmarshalJSON of uma/protocol/kyc_status.go).
use uma_go_sdk.Base.{◌≡◌, Option, none, some}
use uma_go_sdk.Go.Result.{Result, ok, ◌>>=◌}
use uma_go_sdk.Go.Json.{Json, text}
use uma_go_sdk.Go.Json.Decode.{decode_text}
use uma_go_sdk.Protocol.KycStatus.{
  KycStatus, unknown, string_value, unmarshal_bytes, known, marshal_bytes, kyc-unmarshal-marshal,
}

unfoldable pub marshal_status : KycStatus → Json
marshal_status k = text (string_value k)

-- The switch on the text is that of `UnmarshalBytes`.
unfoldable pub unmarshal_status : Json → Result KycStatus
unmarshal_status v = decode_text (some v) >>= λ s. ok (unmarshal_bytes s)

-- A field of type KycStatus; a field that is missing keeps the zero value.
unfoldable pub status_field : Option Json → Result KycStatus
status_field none = ok unknown
status_field (some v) = unmarshal_status v

pub status-unmarshal-marshal : (k : KycStatus) → unmarshal_status (marshal_status k) ≡ ok (known k)
unfolding unmarshal_status marshal_status decode_text marshal_bytes
status-unmarshal-marshal k = rw (kyc-unmarshal-marshal k)
