-- ===== src/Protocol/LnurlpResponse/Whole.antt =====
-- A whole UMA response (uma/protocol/lnurl_response.go).
use uma_go_sdk.Base.{◌≡◌, refl, some, List, Bytes}
use uma_go_sdk.Go.Result.{ok}
use uma_go_sdk.Protocol.CounterParty.{CounterPartyDataOptions}
use uma_go_sdk.Protocol.Currency.{Currency}
use uma_go_sdk.Protocol.LnurlpResponse.{
  LnurlpResponse, UmaLnurlpResponse, LnurlComplianceResponse, as_uma_response, is_uma_response,
  uma_response,
}

pub as_uma_response-some :
    (r : LnurlpResponse) (currencies : List Currency) (payer_data : CounterPartyDataOptions)
    (compliance : LnurlComplianceResponse) (uma_version : Bytes)
    → r.currencies ≡ some currencies
    → r.required_payer_data ≡ some payer_data
    → r.compliance ≡ some compliance
    → r.uma_version ≡ some uma_version
    → (u : UmaLnurlpResponse) × (as_uma_response r ≡ ok (some u))
      × (u.compliance ≡ compliance)
      × (u.required_payer_data ≡ payer_data)
      × (u.uma_version ≡ uma_version)
unfolding as_uma_response is_uma_response uma_response
as_uma_response-some r currencies payer_data compliance uma_version ec ep eo ev = (
  record {
    lnurlp_response = r;
    currencies = currencies;
    required_payer_data = payer_data;
    compliance = compliance;
    uma_version = uma_version;
    comment_chars_allowed = r.comment_chars_allowed;
    nostr_pubkey = r.nostr_pubkey;
    allows_nostr = r.allows_nostr;
  },
  rw ec (rw ep (rw eo (rw ev refl))),
  refl,
  refl,
  refl,
)
