-- ===== src/Uma/InvoiceSigning.antt =====
-- CreateUmaInvoice, DecodeUmaInvoice and VerifyUmaInvoiceSignature of uma/uma.go.
use uma_go_sdk.NonceCache.{in_memory}
use uma_go_sdk.Base.{ℕ, Bool, Option, none, some, [], Bytes}
use uma_go_sdk.Base.Int.{ℤ}
use uma_go_sdk.Go.Result.{Result, ok, ◌>>=◌, deref}
use uma_go_sdk.Go.Hex.{encode_to_string}
use uma_go_sdk.Crypto.{Crypto}
use uma_go_sdk.Version.{uma_protocol_version}
use uma_go_sdk.Protocol.KycStatus.{KycStatus}
use uma_go_sdk.Protocol.CounterParty.{CounterPartyDataOptions}
use uma_go_sdk.Protocol.Invoice.{
  InvoiceCurrency, UmaInvoice, Bech32, marshal_invoice, from_bech32_string,
}
use uma_go_sdk.Protocol.PubKeyResponse.{PubKeyResponse}
use uma_go_sdk.Uma.Signing.{sign_payload_to_bytes, verify_signature}

-- What the caller of `CreateUmaInvoice` gives, the private key aside.
pub record InvoiceTerms : Type 0 where
  pub receiver_uma : Bytes
  pub amount : ℕ
  pub receiving_currency : InvoiceCurrency
  pub expiration : ℕ
  pub callback : Bytes
  pub is_subject_to_travel_rule : Bool
  pub required_payer_data : Option CounterPartyDataOptions
  pub comment_chars_allowed : Option ℤ
  pub receiver_kyc_status : Option KycStatus
  pub invoice_limit : Option ℕ
  pub sender_uma : Option Bytes

-- The invoice before it is signed; the first argument is the new UUID.
unfoldable pub unsigned_invoice : Bytes → InvoiceTerms → UmaInvoice
unsigned_invoice uuid terms = record {
  receiver_uma = terms.receiver_uma;
  invoice_uuid = uuid;
  amount = terms.amount;
  receiving_currency = terms.receiving_currency;
  expiration = terms.expiration;
  is_subject_to_travel_rule = terms.is_subject_to_travel_rule;
  required_payer_data = terms.required_payer_data;
  uma_versions = uma_protocol_version;
  comment_chars_allowed = terms.comment_chars_allowed;
  sender_uma = terms.sender_uma;
  max_num_payments = terms.invoice_limit;
  kyc_status = terms.receiver_kyc_status;
  callback = terms.callback;
  signature = none;
}

unfoldable pub decode_uma_invoice : Bech32 → Bytes → Result UmaInvoice
decode_uma_invoice = from_bech32_string

module _ (crypto : Crypto) where
  unfoldable pub create_uma_invoice : Bytes → Bytes → InvoiceTerms → Bytes → Result UmaInvoice
  create_uma_invoice uuid random terms private_key = do
    payload ← marshal_invoice (unsigned_invoice uuid terms)
    signature ← sign_payload_to_bytes crypto random payload private_key
    ok (record (unsigned_invoice uuid terms) { signature = some (some signature) })

  -- The bytes of a slice; a nil slice has none.
  slice_bytes : Option Bytes → Bytes
  slice_bytes none = []
  slice_bytes (some s) = s

  unfoldable pub verify_uma_invoice_signature : UmaInvoice → PubKeyResponse → Result (Unit {0})
  unfolding slice_bytes
  verify_uma_invoice_signature invoice other_vasp = do
    payload ← marshal_invoice (record invoice { signature = none })
    signature ← deref invoice.signature
    verify_signature crypto payload (encode_to_string (slice_bytes signature)) other_vasp
