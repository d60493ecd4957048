-- ===== src/Uma/Signing.antt =====
-- Nonces, signatures and key responses of uma/uma.go. What `rand.Reader` and `time.Now` give is an
-- argument.
use uma_go_sdk.Base.{ℕ, Option, some, Bytes}
use uma_go_sdk.Base.Int.{ℤ}
use uma_go_sdk.Go.Result.{Result, ok, ◌>>=◌, guard, or_error, library_error, invalid_uma_signature}
use uma_go_sdk.Go.Strconv.{format_uint}
use uma_go_sdk.Go.Hex.{encode_to_string, decode_string}
use uma_go_sdk.Crypto.{Crypto}
use uma_go_sdk.Utils.Certs.{extract_pubkey_from_pem_certificate_chain}
use uma_go_sdk.Protocol.PubKeyResponse.{PubKeyResponse, signing_pub_key}

-- The argument is what `rand.Int` returns.
unfoldable pub generate_nonce : Result ℕ → Result Bytes
generate_nonce draw = draw >>= λ n. ok (format_uint n)

module _ (crypto : Crypto) where
  unfoldable pub sign_payload_to_bytes : Bytes → Bytes → Bytes → Result Bytes
  sign_payload_to_bytes random payload private_key =
      crypto.sign random private_key (crypto.sha256 payload)

  unfoldable pub sign_payload : Bytes → Bytes → Bytes → Result Bytes
  sign_payload random payload private_key = do
    signature ← sign_payload_to_bytes random payload private_key
    ok (encode_to_string signature)

  unfoldable pub verify_signature : Bytes → Bytes → PubKeyResponse → Result (Unit {0})
  verify_signature payload signature other_vasp = do
    decoded ← or_error (decode_string signature) library_error
    parsed ← crypto.parse_der_signature decoded
    pub_key ← signing_pub_key crypto other_vasp
    key ← crypto.parse_pub_key pub_key
    guard (crypto.verify parsed (crypto.sha256 payload) key) invalid_uma_signature

  unfoldable pub get_pub_key_response : Bytes → Bytes → Option ℤ → Result PubKeyResponse
  get_pub_key_response signing_chain encryption_chain expiration = do
    signing_key ← extract_pubkey_from_pem_certificate_chain crypto signing_chain
    encryption_key ← extract_pubkey_from_pem_certificate_chain crypto encryption_chain
    ok (record {
      signing_cert_chain = some signing_chain;
      encryption_cert_chain = some encryption_chain;
      signing_pub_key_hex = some (encode_to_string (crypto.serialize_uncompressed signing_key));
      encryption_pub_key_hex =
          some (encode_to_string (crypto.serialize_uncompressed encryption_key));
      expiration_timestamp = expiration;
    })
