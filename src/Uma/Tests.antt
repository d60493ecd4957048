-- ===== src/Uma/Tests.antt =====
-- Signed messages of uma/uma.go at concrete inputs.
use uma_go_sdk.NonceCache.{in_memory}
use uma_go_sdk.Base.{true, ◌≡◌, refl, arith, none, some, List, [], ◌∷◌, ◌++◌, Bytes, codes, Lacks}
use mathlib.Core.Path.{subst}
use uma_go_sdk.Base.Int.{pos}
use uma_go_sdk.Go.Result.{ok}
use uma_go_sdk.Go.Time.{Time, unix_seconds}
use uma_go_sdk.Go.Url.{Url}
use uma_go_sdk.Version.Parse.{own_version_supported}
use uma_go_sdk.Protocol.LnurlpRequest.{
  is_uma_request, signable_payload, LnurlpRequest, UmaLnurlpRequest, as_uma_request,
}
use uma_go_sdk.Protocol.LnurlpRequest.Encoding.{whole_payload}
use uma_go_sdk.Protocol.PostTransactionCallback.{PostTransactionCallback, UtxoWithAmount}
use uma_go_sdk.Uma.Lnurlp.{get_signed_lnurlp_request_url, parse_lnurlp_request}
use uma_go_sdk.Uma.Lnurlp.UrlRoundTrip.{username-Lacks-at}
use uma_go_sdk.Uma.Verify.{
  verify_uma_lnurlp_query_signature, get_post_transaction_callback,
  verify_post_transaction_callback_signature,
}
use uma_go_sdk.Uma.Verify.Callback.{callback_received}
use uma_go_sdk.Protocol.PostTransactionCallback.Json.{marshal_callback, unmarshal_callback}
use uma_go_sdk.Uma.Payloads.{payload_injective}
use uma_go_sdk.Version.{uma_protocol_version}
use uma_go_sdk.Go.Strconv.{format_uint}
use uma_go_sdk.Uma.EndToEnd.{signed_request_verified}
use uma_go_sdk.Uma.Toy.{
  toy, toy-IsKeyPair, toy-IsSigner, key, random_bytes, vasp, vasp-key, now, cache, user, domain,
  user_valid, domain_valid, unseen, young,
}

abbrev utxos : List UtxoWithAmount
utxos = record { utxo = codes "abcd"; amount = pos 5000 } ∷ []

signed_request_verified_example :
    (url : Url) × (q : LnurlpRequest) × (u : UmaLnurlpRequest) × (get_signed_lnurlp_request_url toy
        (ok 2301)
        random_bytes
        now
        key
        (user ++ b'@' ∷ domain)
        (codes "vasp1.com")
        true
        none
      ≡ ok url)
    × (parse_lnurlp_request url ≡ ok q)
    × (as_uma_request q ≡ ok (some u))
    × (is_uma_request q ≡ true)
    × (q.uma_version ≡ some uma_protocol_version)
    × (u.nonce ≡ format_uint 2301)
    × ((verify_uma_lnurlp_query_signature toy u vasp cache).0 ≡ ok tt)
signed_request_verified_example =
    signed_request_verified toy key key (toy-IsKeyPair key) vasp vasp-key user domain
      (codes "vasp1.com") true none 2301 random_bytes now cache (toy-IsSigner random_bytes key)
      user_valid (username-Lacks-at domain domain_valid) (λ e. cc) own_version_supported unseen
      young

callback_received_example :
    (c : PostTransactionCallback) × (q : PostTransactionCallback) × (get_post_transaction_callback
        toy
        (ok 2301)
        random_bytes
        now
        utxos
        (codes "vasp1.com")
        key
      ≡ ok c)
    × (unmarshal_callback (marshal_callback c) ≡ ok q)
    × (q.utxos ≡ utxos)
    × ((verify_post_transaction_callback_signature toy q vasp cache).0 ≡ ok tt)
callback_received_example =
    callback_received toy key key (toy-IsKeyPair key) vasp vasp-key 2301 random_bytes now utxos
      (codes "vasp1.com") cache ((omega arith, omega arith), tt) (toy-IsSigner random_bytes key)
      unseen young

domain_no_bar : Lacks b'|' domain
domain_no_bar = ground arith

nonce_no_bar : Lacks b'|' (codes "2301")
nonce_no_bar = ground arith

abbrev late : Time
late = record now { nsec = 6 }

abbrev asked : Time → LnurlpRequest
asked t = record {
  receiver_address = domain;
  nonce = some (codes "2301");
  signature = none;
  is_subject_to_travel_rule = none;
  vasp_domain = none;
  timestamp = some t;
  uma_version = none;
}

said : (n : Bytes) → some (codes "2301") ≡ some n → codes "2301" ≡ n
said n e = cc

payload_injective_example :
    (nonce : Bytes) × (t : Time) × (t' : Time) × (domain ≡ domain)
    × (some (codes "2301") ≡ some nonce)
    × (some (codes "2301") ≡ some nonce)
    × (some now ≡ some t)
    × (some late ≡ some t')
    × (unix_seconds t ≡ unix_seconds t')
payload_injective_example =
    payload_injective (asked now) (asked late) (whole_payload domain (codes "2301") now)
      domain_no_bar domain_no_bar (λ n e. subst (Lacks b'|') (said n e) nonce_no_bar)
      (λ n e. subst (Lacks b'|') (said n e) nonce_no_bar) (unfold signable_payload in refl)
      (unfold signable_payload unix_seconds in refl)
