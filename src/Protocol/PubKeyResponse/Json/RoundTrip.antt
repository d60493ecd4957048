-- ===== src/Protocol/PubKeyResponse/Json/RoundTrip.antt =====
-- The JSON form of a public key response and back (uma/protocol/pub_key_response.go).
use uma_go_sdk.Base.{◌≡◌, refl, Option, none, some, List, [], ◌∷◌, Bytes, eqb, map, All, IsByte}
use uma_go_sdk.Go.Result.{ok, ◌>>=◌}
use uma_go_sdk.Go.Hex.{encode_to_string}
use uma_go_sdk.Go.Json.Decode.{decode_texts, decode_struct, decode_pointer, decode_items}
use uma_go_sdk.Go.Json.Laws.{
  get-struct_of, or_else-none, decode-text_pointer, decode-int_pointer, IsOptionalInt64,
  decode-items_of,
}
use uma_go_sdk.Crypto.{Crypto, IsPem}
use uma_go_sdk.Utils.Certs.{
  convert_pem_certificate_chain_to_hex_encoded_der, convert_hex_encoded_der_to_pem_cert_chain,
}
use uma_go_sdk.Utils.Certs.RoundTrip.{pem_chain, hex_der-round_trip}
use uma_go_sdk.Protocol.PubKeyResponse.{PubKeyResponse}
use uma_go_sdk.Protocol.PubKeyResponse.Json.{
  chain_json, pub_key_fields, marshal_pub_key_response, unmarshal_pub_key_response,
}

-- A chain as it is written by encoding at least one certificate, or no chain.
abbrev pub IsPemChain : Crypto → Option Bytes → Type 0
IsPemChain crypto none = Unit
IsPemChain crypto (some cert_chain) =
    (block : Bytes) × (blocks : List Bytes) × All (All IsByte) (block ∷ blocks)
    × (cert_chain ≡ pem_chain crypto (block ∷ blocks))

module _ (crypto : Crypto) (pem : IsPem crypto) where
  -- A chain is written, and what is read is converted to the chain.
  chain_written :
      (cert_chain : Option Bytes)
      → IsPemChain crypto cert_chain
      → (certs : List Bytes) × (convert_pem_certificate_chain_to_hex_encoded_der crypto cert_chain
          ≡ ok certs)
        × (decode_pointer decode_texts (some (chain_json cert_chain certs)) ≡ ok (some certs))
        × (convert_hex_encoded_der_to_pem_cert_chain crypto (some certs) ≡ ok cert_chain)
  unfolding decode_pointer decode_texts chain_json
  chain_written none h = (
    [],
    unfold convert_pem_certificate_chain_to_hex_encoded_der in refl,
    unfold decode_items in refl,
    unfold convert_hex_encoded_der_to_pem_cert_chain in refl,
  )
  chain_written (some cert_chain) (block, blocks, bytes, e) =
      let (to_hex, to_pem) = hex_der-round_trip crypto pem block blocks bytes in
      let certs = map encode_to_string (block ∷ blocks) in
      (certs, rw e to_hex, rw (decode-items_of certs) refl, rw e to_pem)

  -- A public key response is read back from its JSON form as it was, if each certificate chain is nil
  -- or is what the PEM encoder writes of one or more certificates, and the expiration timestamp is nil
  -- or an int64.
  pub pub_key_response-unmarshal-marshal :
      (r : PubKeyResponse)
      → IsPemChain crypto r.signing_cert_chain
      → IsPemChain crypto r.encryption_cert_chain
      → IsOptionalInt64 r.expiration_timestamp
      → (marshal_pub_key_response crypto r >>= unmarshal_pub_key_response crypto) ≡ ok r
  unfolding marshal_pub_key_response unmarshal_pub_key_response pub_key_fields decode_struct eqb
  pub_key_response-unmarshal-marshal r signing encryption timestamp =
      let (s, to_hex, read, to_pem) = chain_written r.signing_cert_chain signing in
      let (t, to_hex', read', to_pem') = chain_written r.encryption_cert_chain encryption in
      simp (
        to_hex,
        to_hex',
        get-struct_of,
        or_else-none,
        read,
        read',
        to_pem,
        to_pem',
        decode-text_pointer r.signing_pub_key_hex,
        decode-text_pointer r.encryption_pub_key_hex,
        decode-int_pointer r.expiration_timestamp timestamp,
      )
