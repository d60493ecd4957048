-- ===== src/Uma/SigningLaws.antt =====
-- Signing and checking a payload and an invoice with one key pair (uma/uma.go).
use uma_go_sdk.NonceCache.{in_memory}
use uma_go_sdk.Base.{◌≡◌, refl, sym, none, some, Bytes}
use mathlib.Core.Path.{subst}
use uma_go_sdk.Go.Result.{ok, >>=-ok, ok_injective}
use uma_go_sdk.Go.Hex.{encode_to_string, decode-encode}
use uma_go_sdk.Crypto.{Crypto, IsKeyPair}
use uma_go_sdk.Protocol.PubKeyResponse.{PubKeyResponse, signing_pub_key}
use uma_go_sdk.Protocol.Invoice.{UmaInvoice, marshal_invoice}
use uma_go_sdk.Uma.Signing.{sign_payload, sign_payload_to_bytes, verify_signature}
use uma_go_sdk.Uma.InvoiceSigning.{
  InvoiceTerms, unsigned_invoice, create_uma_invoice, verify_uma_invoice_signature,
}

module _ (crypto : Crypto) (private_key public_key : Bytes)
    (pair : IsKeyPair crypto private_key public_key) (vasp : PubKeyResponse)
    (has_key : signing_pub_key crypto vasp ≡ ok public_key) where
  verify-sign_bytes :
      (random payload signature : Bytes)
      → sign_payload_to_bytes crypto random payload private_key ≡ ok signature
      → verify_signature crypto payload (encode_to_string signature) vasp ≡ ok tt
  unfolding sign_payload_to_bytes verify_signature
  verify-sign_bytes random payload signature h =
      let (bytes, _, parsed) = pair random (crypto.sha256 payload) signature h in
      let (s, k, es, ek, v) = parsed in
      rw (decode-encode signature bytes) (rw es (rw has_key (rw ek (rw v refl))))

  -- A payload that the private key signed is accepted by `verifySignature` with a key response that
  -- holds the public key of the pair.
  pub verify-sign_payload :
      (random payload signature : Bytes)
      → sign_payload crypto random payload private_key ≡ ok signature
      → verify_signature crypto payload signature vasp ≡ ok tt
  unfolding sign_payload
  verify-sign_payload random payload signature h =
      let (s, e, k) = >>=-ok (sign_payload_to_bytes crypto random payload private_key) _ h in
      rw (sym (ok_injective k)) (verify-sign_bytes random payload s e)

  verify_signed_invoice :
      (i : UmaInvoice) (random payload signature : Bytes)
      → marshal_invoice (record i { signature = none }) ≡ ok payload
      → sign_payload_to_bytes crypto random payload private_key ≡ ok signature
      → verify_uma_invoice_signature crypto (record i { signature = some (some signature) }) vasp
        ≡ ok tt
  unfolding verify_uma_invoice_signature
  verify_signed_invoice i random payload signature e h =
      rw e (verify-sign_bytes random payload signature h)

  -- An invoice that `CreateUmaInvoice` made is accepted by `VerifyUmaInvoiceSignature`.
  pub verify-create_invoice :
      (uuid random : Bytes) (terms : InvoiceTerms) (i : UmaInvoice)
      → create_uma_invoice crypto uuid random terms private_key ≡ ok i
      → verify_uma_invoice_signature crypto i vasp ≡ ok tt
  unfolding create_uma_invoice unsigned_invoice
  verify-create_invoice uuid random terms i h =
      let (payload, e, k) = >>=-ok (marshal_invoice (unsigned_invoice uuid terms)) _ h in
      let (s, es, ks) = >>=-ok (sign_payload_to_bytes crypto random payload private_key) _ k in
      subst (λ j. verify_uma_invoice_signature crypto j vasp ≡ ok tt) (ok_injective ks)
        (verify_signed_invoice (unsigned_invoice uuid terms) random payload s e es)
