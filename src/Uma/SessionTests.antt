-- ===== src/Uma/SessionTests.antt =====
-- A session of four messages (uma/uma.go) at concrete inputs.
use uma_go_sdk.Base.{
  ◌≡◌, ◌≢◌, refl, true, false, eqb, eqb_iff, none, some, [], ◌∷◌, ◌++◌, codes, arith,
}
use uma_go_sdk.Base.Int.{pos}
use uma_go_sdk.Go.Result.{ok, ◌>>=◌}
use uma_go_sdk.Go.Strconv.{format_uint, format_int, parse_int, parse_uint}
use uma_go_sdk.Go.Hex.{encode_to_string}
use uma_go_sdk.Go.Scan.{scan_int, scan_byte}
use uma_go_sdk.Go.Url.{Url}
use uma_go_sdk.Go.Map.{lookup}
use uma_go_sdk.Version.{uma_protocol_version, select_lower_version, parse_version, version_string}
use uma_go_sdk.Version.Parse.{own_version_supported}
use uma_go_sdk.NonceCache.{in_memory}
use uma_go_sdk.Protocol.KycStatus.{verified}
use uma_go_sdk.Protocol.LnurlpRequest.{LnurlpRequest, UmaLnurlpRequest, as_uma_request}
use uma_go_sdk.Protocol.LnurlpResponse.{LnurlpResponse, UmaLnurlpResponse, as_uma_response}
use uma_go_sdk.Protocol.LnurlpResponse.Json.{marshal_lnurlp_response, unmarshal_lnurlp_response}
use uma_go_sdk.Uma.Lnurlp.UrlRoundTrip.{username-Lacks-at}
use uma_go_sdk.Uma.Lnurlp.{get_signed_lnurlp_request_url, parse_lnurlp_request}
use uma_go_sdk.Uma.LnurlpAnswer.{get_lnurlp_response}
use uma_go_sdk.Uma.Verify.{verify_uma_lnurlp_query_signature, verify_uma_lnurlp_response_signature}
use uma_go_sdk.Uma.Exchange.{Party, IsAgreed}
use uma_go_sdk.Uma.Session.{session_agreed}
use uma_go_sdk.Uma.Toy.{
  toy, key, random_bytes, vasp, now, cache, user, domain, user_valid, domain_valid, unseen, young,
}
use uma_go_sdk.Uma.ToyJson.{toy_float, toy-IsFloat64}
use uma_go_sdk.Uma.AnswerTests.{terms as lnurlp_terms, dollar, dollar-kept}
use uma_go_sdk.Uma.MessageTests.{
  lib, terms, answer_terms, create_invoice, party, terms-IsPayable, answer_terms-HasTerms,
  agreed-PaymentIsKept, info_encrypted,
}

-- The same party with another nonce.
abbrev later_party : Party toy
later_party = record party { nonce = 2302 }

own_version_chosen :
    select_lower_version uma_protocol_version uma_protocol_version ≡ ok uma_protocol_version
unfolding select_lower_version uma_protocol_version version_string parse_version scan_int scan_byte
    parse_int parse_uint format_int format_uint
own_version_chosen = refl

unseen_later : lookup (format_uint 2302) cache.cache ≡ none
unfolding lookup format_uint eqb
unseen_later = refl

nonces_differ : eqb (format_uint 2301) (format_uint 2302) ≡ false
unfolding format_uint eqb
nonces_differ = refl

new_nonce : format_uint 2301 ≢ format_uint 2302
new_nonce e = ground (arith, nonces_differ, eqb_iff (format_uint 2301) (format_uint 2302))

session_agreed_example :
    (url : Url) × (q : LnurlpRequest) × (u : UmaLnurlpRequest) × (a : LnurlpResponse)
    × (b : LnurlpResponse) × (w : UmaLnurlpResponse) × (get_signed_lnurlp_request_url toy
          (ok 2301)
          random_bytes
          now
          key
          (user ++ b'@' ∷ domain)
          (codes "vasp1.com")
          true
          none
        ≡ ok url)
    × (parse_lnurlp_request url ≡ ok q)
    × (as_uma_request q ≡ ok (some u))
    × ((verify_uma_lnurlp_query_signature toy u vasp cache).0 ≡ ok tt)
    × (get_lnurlp_response toy (ok 2301) random_bytes now q lnurlp_terms ≡ ok a)
    × ((marshal_lnurlp_response toy_float a >>= unmarshal_lnurlp_response toy_float) ≡ ok b)
    × (as_uma_response b ≡ ok (some w))
    × (w.uma_version ≡ uma_protocol_version)
    × ((verify_uma_lnurlp_response_signature toy w vasp cache).0 ≡ ok tt)
    × IsAgreed toy lib later_party later_party
        (verify_uma_lnurlp_query_signature toy u vasp cache).1
        (verify_uma_lnurlp_response_signature toy w vasp cache).1
        terms
        random_bytes
        answer_terms
        (pos 2)
        68000
        (pos 7)
        (codes "$bob@vasp2.com")
        create_invoice
session_agreed_example =
    session_agreed toy lib toy-IsFloat64 (λ v. (codes "json", refl)) party later_party party
      later_party cache cache user domain (codes "vasp1.com") true none lnurlp_terms
      uma_protocol_version true verified (dollar ∷ []) terms random_bytes
      (some (encode_to_string (codes "secret"))) answer_terms (pos 2) 68000 (pos 7)
      (codes "$bob@vasp2.com") (format_int (pos 34000)) create_invoice
      (record {
        username = user_valid;
        no_at = username-Lacks-at domain domain_valid;
        own_domain = λ e. cc;
        supported = own_version_supported;
      })
      (record {
        lower = own_version_chosen;
        own_key = refl;
        has_subject = refl;
        has_status = refl;
        has_options = λ e. cc;
        has_currencies = refl;
        kept = (dollar-kept, tt);
        chars = tt;
        constant = refl;
      })
      terms-IsPayable info_encrypted answer_terms-HasTerms tt agreed-PaymentIsKept
      (λ amount metadata receiver. (codes "lnbc1", refl)) (record { fresh = unseen; young = young })
      (record { fresh = unseen_later; young = young }) (record { fresh = unseen; young = young })
      (record { fresh = unseen_later; young = young }) new_nonce new_nonce
