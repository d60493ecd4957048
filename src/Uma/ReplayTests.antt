-- ===== src/Uma/ReplayTests.antt =====
-- Replays of pay requests and the amounts of an answer (uma/uma.go) at concrete inputs.
use uma_go_sdk.Base.{
  inl, inr, Option, ◌≡◌, ◌≢◌, refl, none, some, List, [], ◌∷◌, Bytes, codes, eqb, ◌↔◌,
}
use uma_go_sdk.Base.Int.{ℤ, pos, negsuc, wrap_int, ◌+ℤ◌, ◌-ℤ◌, ◌*ℤ◌, IsInt64}
use uma_go_sdk.Go.Result.{Result, ok, panic}
use uma_go_sdk.Go.Strings.{join}
use uma_go_sdk.Go.Strconv.{format_uint, format_int, parse_int, parse_uint}
use uma_go_sdk.Go.Time.{unix, before}
use uma_go_sdk.Go.Map.{lookup, insert}
use uma_go_sdk.Go.Hex.{encode_to_string, decode_string}
use uma_go_sdk.Go.Json.{
  null, Members, text, number, object, no_members, member, get_member, marshal,
}
use uma_go_sdk.Go.Json.Decode.{decode_text, decode_texts, decode_int, decode_pointer}
use uma_go_sdk.NonceCache.{check_and_save_nonce, in_memory}
use uma_go_sdk.NonceCache.Interface.{perform, Call, check, purge, perform_all, Advances}
use uma_go_sdk.NonceCache.Replay.{in_memory_safe}
use uma_go_sdk.Protocol.PubKeyResponse.{signing_pub_key}
use uma_go_sdk.Protocol.LnurlpRequest.{LnurlpRequest, is_uma_request}
use uma_go_sdk.Protocol.LnurlpResponse.{LnurlpResponse}
use uma_go_sdk.Protocol.PayerData.{
  payer_compliance, compliance_of, payer_identifier, string_field, unmarshal_payer,
}
use uma_go_sdk.Protocol.PayRequest.{PayRequest, zero_pay_request, pay_request_payload}
use uma_go_sdk.Protocol.KycStatus.Json.{unmarshal_status}
use uma_go_sdk.Protocol.KycStatus.{unmarshal_bytes}
use uma_go_sdk.Uma.Signing.{verify_signature}
use uma_go_sdk.Uma.PayRequest.{verify_pay_req_signature, verify_compliance}
use uma_go_sdk.Uma.SignedMessage.{verify_message, pay_request, nonce_of}
use uma_go_sdk.Uma.Authentic.{IsAuthentic, verified_iff}
use uma_go_sdk.Uma.ReplayLaws.{verified_once, nonce_used_up}
use uma_go_sdk.Uma.LnurlpAnswer.{AnswerTerms, get_lnurlp_response, set_currency_versions}
use uma_go_sdk.Uma.LnurlpAnswer.Sendable.{sendable_exact}
use uma_go_sdk.Uma.PayResponse.{ResponseTerms, get_pay_req_response}
use uma_go_sdk.Uma.PayResponse.Safe.{get_pay_req_response-ne-panic}
use uma_go_sdk.Uma.ToyJson.{toy_lib, toy_parse-ne-panic, toy_print-ne-panic}
use uma_go_sdk.Uma.Toy.{toy, toy_signature, key, random_bytes, vasp, now, cache}

abbrev signature : Bytes
signature = encode_to_string (toy_signature key (toy.sha256 (codes "alice|9|100")))

abbrev compliance : Members
compliance = member (codes "signature") (text signature) (
    member (codes "signatureNonce") (text (codes "9"))
      (member (codes "signatureTimestamp") (number (codes "100")) no_members))

abbrev query : PayRequest
query = record zero_pay_request {
  payer_data = some (
      member (codes "identifier") (text (codes "alice"))
        (member (codes "compliance") (object compliance) no_members));
}

abbrev calls : List Call
calls = check (codes "4") now ∷ purge now ∷ []

query_verified : (verify_pay_req_signature toy query vasp cache).0 ≡ ok tt
unfolding verify_pay_req_signature pay_request_payload payer_compliance get_member eqb
    unmarshal_payer decode_pointer marshal decode_text decode_int parse_int parse_uint
    check_and_save_nonce before unix wrap_int ◌+ℤ◌ lookup payer_identifier string_field
    verify_signature decode_string signing_pub_key compliance_of verify_compliance encode_to_string
    join format_int format_uint unmarshal_status unmarshal_bytes decode_texts insert
query_verified = refl

advances : Advances in_memory_safe (verify_pay_req_signature toy query vasp cache).1 calls
unfolding verify_pay_req_signature payer_compliance get_member eqb unmarshal_payer decode_pointer
    marshal decode_text decode_int parse_int parse_uint check_and_save_nonce before unix wrap_int
    ◌+ℤ◌ ◌-ℤ◌ lookup compliance_of verify_compliance unmarshal_status unmarshal_bytes decode_texts
    insert perform
advances = (refl, tt)

verified_once_example :
    (verify_message toy
      (pay_request query)
      vasp
      (perform_all (verify_message toy (pay_request query) vasp cache).1 calls)).0
    ≢ ok tt
unfolding verify_message
verified_once_example =
    verified_once toy in_memory_safe cache calls (pay_request query) (pay_request query) vasp vasp
      (unfold lookup in (refl, tt)) refl query_verified advances

-- The same request with a signature that is none.
abbrev forged : PayRequest
forged = record zero_pay_request {
  payer_data = some (
      member (codes "identifier") (text (codes "alice")) (
        member (codes "compliance")
          (object (
            member (codes "signature") (text (codes "00")) (
              member (codes "signatureNonce") (text (codes "9"))
                (member (codes "signatureTimestamp") (number (codes "100")) no_members))))
          no_members));
}

query-nonce_of : nonce_of (pay_request query) ≡ some (codes "9", unix (pos 100))
unfolding payer_compliance get_member eqb unmarshal_payer decode_pointer marshal decode_text
    decode_int parse_int parse_uint compliance_of unmarshal_status unmarshal_bytes decode_texts
query-nonce_of = refl

forged-nonce_of : nonce_of (pay_request forged) ≡ some (codes "9", unix (pos 100))
unfolding payer_compliance get_member eqb unmarshal_payer decode_pointer marshal decode_text
    decode_int parse_int parse_uint compliance_of unmarshal_status unmarshal_bytes decode_texts
forged-nonce_of = refl

nonce_accepted : (check_and_save_nonce cache (codes "9") (unix (pos 100))).0 ≡ ok tt
unfolding check_and_save_nonce before unix wrap_int ◌+ℤ◌ ◌-ℤ◌ lookup eqb insert
nonce_accepted = refl

forged-Advances :
    Advances in_memory_safe (verify_message toy (pay_request forged) vasp cache).1 calls
unfolding verify_message verify_pay_req_signature payer_compliance get_member eqb unmarshal_payer
    decode_pointer marshal decode_text decode_int parse_int parse_uint check_and_save_nonce before
    unix wrap_int ◌+ℤ◌ ◌-ℤ◌ lookup compliance_of verify_compliance unmarshal_status unmarshal_bytes
    decode_texts insert perform
forged-Advances = (refl, tt)

nonce_used_up_example :
    (verify_message toy
      (pay_request query)
      vasp
      (perform_all (verify_message toy (pay_request forged) vasp cache).1 calls)).0
    ≢ ok tt
nonce_used_up_example =
    nonce_used_up toy in_memory_safe cache calls (pay_request forged) (pay_request query) vasp vasp
      (codes "9") (unix (pos 100)) (unfold lookup in (refl, tt)) forged-nonce_of query-nonce_of
      nonce_accepted forged-Advances

verified_iff_example :
    ((verify_message toy (pay_request query) vasp cache).0 ≡ ok tt)
    ↔ IsAuthentic toy (pay_request query) vasp cache
verified_iff_example = verified_iff toy (pay_request query) vasp cache

abbrev plain : LnurlpRequest
plain = record {
  receiver_address = codes "bob@vasp2.com";
  nonce = none;
  signature = none;
  is_subject_to_travel_rule = none;
  vasp_domain = none;
  timestamp = none;
  uma_version = none;
}

abbrev terms : AnswerTerms
terms = record {
  callback = codes "/cb";
  encoded_metadata = codes "[]";
  min_sendable_sats = pos 1;
  max_sendable_sats = pos 9223372036854776;
  private_key_bytes = none;
  requires_travel_rule_info = none;
  payer_data_options = none;
  currency_options = none;
  receiver_kyc_status = none;
  comment_chars_allowed = none;
  nostr_pubkey = none;
}

abbrev response : LnurlpResponse
response = record {
  tag = codes "protocol.PayRequest";
  callback = codes "/cb";
  min_sendable = pos 1000;
  max_sendable = negsuc 9223372036854775615;
  encoded_metadata = codes "[]";
  currencies = none;
  required_payer_data = none;
  compliance = none;
  uma_version = none;
  comment_chars_allowed = none;
  nostr_pubkey = none;
  allows_nostr = none;
}

sendable_exact_example :
    ((response.min_sendable ≡ pos 1 *ℤ pos 1000) ↔ IsInt64 (pos 1 *ℤ pos 1000))
    × ((response.max_sendable ≡ pos 9223372036854776 *ℤ pos 1000)
        ↔ IsInt64 (pos 9223372036854776 *ℤ pos 1000))
sendable_exact_example =
    sendable_exact toy (ok 2301) random_bytes now plain terms response
      (unfold get_lnurlp_response is_uma_request set_currency_versions wrap_int ◌*ℤ◌ in refl)

-- No receiving currency, no key and no payee: an answer without payment information.
abbrev bare : ResponseTerms
bare = record {
  metadata = codes "[]";
  receiving_currency_code = none;
  receiving_currency_decimals = none;
  conversion_rate = none;
  receiver_fees_millisats = none;
  receiver_channel_utxos = none;
  receiver_node_pub_key = none;
  utxo_callback = none;
  payee_data = none;
  receiving_vasp_private_key = none;
  payee_identifier = none;
  disposable = none;
  success_action = none;
}

abbrev create_invoice : ℤ → Bytes → Option Bytes → Result (Option Bytes)
create_invoice amount metadata receiver = ok (some (codes "lnbc1"))

get_pay_req_response-ne-panic_example :
    get_pay_req_response toy (toy_lib null) create_invoice (ok 2301) random_bytes now query bare
    ≢ panic
get_pay_req_response-ne-panic_example =
    get_pay_req_response-ne-panic toy (toy_lib null) create_invoice (ok 2301)
      (record {
        writes = λ v e. cc;
        reads = λ s e. cc;
        parses = toy_parse-ne-panic;
        prints = toy_print-ne-panic;
        signs = λ r k h e. cc;
        draws = λ e. cc;
        creates = λ a m r e. cc;
        not_nil = λ a m r e. cc;
      })
      random_bytes now query bare (inl refl) (inr (λ e. cc))
