-- ===== src/Protocol/PubKeyResponse/Json.antt =====
-- The JSON form of uma/protocol/pub_key_response.go, MarshalJSON and UnmarshalJSON: the certificate
-- chains go as lists of hex-encoded DER.
pub mod RoundTrip
use uma_go_sdk.Base.{Option, none, some, List, [], ◌∷◌, Bytes, codes}
use uma_go_sdk.Go.Result.{Result, ok, ◌>>=◌}
use uma_go_sdk.Go.Json.{Json, null, text, array, object, get_member, struct_of, no_items}
use uma_go_sdk.Go.Json.Decode.{
  decode_text, decode_texts, decode_int, decode_struct, decode_pointer, encode_pointer, encode_int,
  encode_texts,
}
use uma_go_sdk.Crypto.{Crypto}
use uma_go_sdk.Utils.Certs.{
  convert_pem_certificate_chain_to_hex_encoded_der, convert_hex_encoded_der_to_pem_cert_chain,
}
use uma_go_sdk.Protocol.PubKeyResponse.{PubKeyResponse}

-- The slice that the conversion of a chain returns: it is empty for no chain, and nil, which is
-- written as null, for a chain without blocks.
unfoldable pub chain_json : Option Bytes → List Bytes → Json
chain_json none certs = array no_items
chain_json (some cert_chain) [] = null
chain_json (some cert_chain) (cert ∷ certs) = encode_texts (cert ∷ certs)

unfoldable pub pub_key_fields : PubKeyResponse → Json → Json → List (Bytes × Option Json)
pub_key_fields r signing encryption =
    (codes "signingCertChain", some signing)
    ∷ (codes "encryptionCertChain", some encryption)
    ∷ (codes "signingPubKey", encode_pointer text r.signing_pub_key_hex)
    ∷ (codes "encryptionPubKey", encode_pointer text r.encryption_pub_key_hex)
    ∷ (codes "expirationTimestamp", encode_pointer encode_int r.expiration_timestamp)
    ∷ []

module _ (crypto : Crypto) where
  unfoldable pub marshal_pub_key_response : PubKeyResponse → Result Json
  marshal_pub_key_response r = do
    signing ← convert_pem_certificate_chain_to_hex_encoded_der crypto r.signing_cert_chain
    encryption ← convert_pem_certificate_chain_to_hex_encoded_der crypto r.encryption_cert_chain
    ok (
        object (
          struct_of (
            pub_key_fields r (chain_json r.signing_cert_chain signing)
              (chain_json r.encryption_cert_chain encryption))))

  unfoldable pub unmarshal_pub_key_response : Json → Result PubKeyResponse
  unmarshal_pub_key_response v = do
    ms ← decode_struct (some v)
    signing_der ← decode_pointer decode_texts (get_member (codes "signingCertChain") ms)
    encryption_der ← decode_pointer decode_texts (get_member (codes "encryptionCertChain") ms)
    signing_hex ← decode_pointer decode_text (get_member (codes "signingPubKey") ms)
    encryption_hex ← decode_pointer decode_text (get_member (codes "encryptionPubKey") ms)
    expiration ← decode_pointer decode_int (get_member (codes "expirationTimestamp") ms)
    signing_pem ← convert_hex_encoded_der_to_pem_cert_chain crypto signing_der
    encryption_pem ← convert_hex_encoded_der_to_pem_cert_chain crypto encryption_der
    ok (record {
      signing_cert_chain = signing_pem;
      encryption_cert_chain = encryption_pem;
      signing_pub_key_hex = signing_hex;
      encryption_pub_key_hex = encryption_hex;
      expiration_timestamp = expiration;
    })
