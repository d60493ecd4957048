-- ===== src/Protocol/PubKeyResponse.antt =====
-- uma/protocol/pub_key_response.go: the data and the two keys. Strings are bytes.
pub mod Json
use uma_go_sdk.Base.{Option, none, some, Bytes}
use uma_go_sdk.Base.Int.{ℤ}
use uma_go_sdk.Go.Result.{
  Error, Result, ok, err, ◌>>=◌, or_error, library_error, signing_pub_key_missing,
  encryption_pub_key_missing,
}
use uma_go_sdk.Go.Hex.{decode_string}
use uma_go_sdk.Crypto.{Crypto}
use uma_go_sdk.Utils.Certs.{extract_pubkey_from_pem_certificate_chain}

pub record PubKeyResponse : Type 0 where
  pub signing_cert_chain : Option Bytes
  pub encryption_cert_chain : Option Bytes
  pub signing_pub_key_hex : Option Bytes
  pub encryption_pub_key_hex : Option Bytes
  pub expiration_timestamp : Option ℤ

module _ (crypto : Crypto) where
  -- The two methods do the same on their fields: the chain, then the hex, then an error.
  key_of : Option Bytes → Option Bytes → Error → Result Bytes
  key_of (some cert_chain) hex missing = do
    public_key ← extract_pubkey_from_pem_certificate_chain crypto cert_chain
    ok (crypto.serialize_uncompressed public_key)
  key_of none (some hex) missing = or_error (decode_string hex) library_error
  key_of none none missing = err missing

  unfoldable pub signing_pub_key : PubKeyResponse → Result Bytes
  unfolding key_of
  signing_pub_key r = key_of r.signing_cert_chain r.signing_pub_key_hex signing_pub_key_missing

  unfoldable pub encryption_pub_key : PubKeyResponse → Result Bytes
  unfolding key_of
  encryption_pub_key r =
      key_of r.encryption_cert_chain r.encryption_pub_key_hex encryption_pub_key_missing
