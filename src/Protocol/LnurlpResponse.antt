-- ===== src/Protocol/LnurlpResponse.antt =====
-- uma/protocol/lnurl_response.go.
pub mod Whole
pub mod Json
use uma_go_sdk.Base.{Bool, ◌&&◌, Option, none, some, List, [], ◌∷◌, Bytes, if◌then◌else◌}
use uma_go_sdk.Base.Int.{ℤ}
use uma_go_sdk.Go.Result.{Result, ok, ◌>>=◌, deref}
use uma_go_sdk.Go.Strings.{join}
use uma_go_sdk.Go.Strconv.{format_int}
use uma_go_sdk.Protocol.KycStatus.{KycStatus}
use uma_go_sdk.Protocol.CounterParty.{CounterPartyDataOptions}
use uma_go_sdk.Protocol.Currency.{Currency}
use uma_go_sdk.Protocol.LnurlpRequest.{is_set}

pub record LnurlComplianceResponse : Type 0 where
  pub kyc_status : KycStatus
  pub signature : Bytes
  pub nonce : Bytes
  pub timestamp : ℤ
  pub is_subject_to_travel_rule : Bool
  pub receiver_identifier : Bytes

pub record LnurlpResponse : Type 0 where
  pub tag : Bytes
  pub callback : Bytes
  pub min_sendable : ℤ
  pub max_sendable : ℤ
  pub encoded_metadata : Bytes
  pub currencies : Option (List Currency)
  pub required_payer_data : Option CounterPartyDataOptions
  pub compliance : Option LnurlComplianceResponse
  pub uma_version : Option Bytes
  pub comment_chars_allowed : Option ℤ
  pub nostr_pubkey : Option Bytes
  pub allows_nostr : Option Bool

-- The embedded struct is the first field.
pub record UmaLnurlpResponse : Type 0 where
  pub lnurlp_response : LnurlpResponse
  pub currencies : List Currency
  pub required_payer_data : CounterPartyDataOptions
  pub compliance : LnurlComplianceResponse
  pub uma_version : Bytes
  pub comment_chars_allowed : Option ℤ
  pub nostr_pubkey : Option Bytes
  pub allows_nostr : Option Bool

unfoldable pub is_uma_response : LnurlpResponse → Bool
is_uma_response r =
    is_set r.compliance
    && is_set r.uma_version
    && is_set r.currencies
    && is_set r.required_payer_data

-- The struct of `AsUmaResponse`, whose pointers are followed.
uma_response : LnurlpResponse → Result (Option UmaLnurlpResponse)
uma_response r = do
  currencies ← deref r.currencies
  required_payer_data ← deref r.required_payer_data
  compliance ← deref r.compliance
  uma_version ← deref r.uma_version
  ok (
      some (record {
        lnurlp_response = r;
        currencies = currencies;
        required_payer_data = required_payer_data;
        compliance = compliance;
        uma_version = uma_version;
        comment_chars_allowed = r.comment_chars_allowed;
        nostr_pubkey = r.nostr_pubkey;
        allows_nostr = r.allows_nostr;
      }))

unfoldable pub as_uma_response : LnurlpResponse → Result (Option UmaLnurlpResponse)
unfolding uma_response
as_uma_response r = if is_uma_response r then uma_response r else ok none

unfoldable pub response_payload : UmaLnurlpResponse → Bytes
response_payload r =
    join b'|' (
      r.compliance.receiver_identifier
      ∷ r.compliance.nonce
      ∷ format_int r.compliance.timestamp
      ∷ [])
