-- ===== src/Utils/Tlv/Coders.antt =====
-- The types that implement `BytesCodable` of uma/utils/tlv_utils.go, and their two methods.
use uma_go_sdk.Base.{Bytes}
use uma_go_sdk.Go.Result.{Result, ok, ◌>>=◌}
use uma_go_sdk.Protocol.KycStatus
use uma_go_sdk.Protocol.KycStatus.{KycStatus}
use uma_go_sdk.Protocol.CounterParty
use uma_go_sdk.Protocol.CounterParty.{CounterPartyDataOptions}

pub data Codable : Type 0 where
  kyc_status : KycStatus → Codable
  data_options : CounterPartyDataOptions → Codable

-- MarshalBytes
unfoldable pub encode : Codable → Bytes
encode (kyc_status k) = KycStatus.marshal_bytes k
encode (data_options c) = CounterParty.marshal_bytes c

-- UnmarshalBytes, by the type of the receiver.
unfoldable pub decode : Codable → Bytes → Result Codable
decode (kyc_status _) s = ok (kyc_status (KycStatus.unmarshal_bytes s))
decode (data_options _) s = CounterParty.unmarshal_bytes s >>= λ c. ok (data_options c)
