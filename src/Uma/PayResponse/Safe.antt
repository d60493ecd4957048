-- ===== src/Uma/PayResponse/Safe.antt =====
-- When GetPayReqResponse of uma/uma.go does not panic.
use uma_go_sdk.Base.{
  ℕ, Bool, true, false, ◌≡◌, ◌≢◌, ◌⊎◌, inl, inr, refl, Option, none, some, [], ◌++◌, Bytes, codes,
  if◌then◌else◌,
}
use uma_go_sdk.Base.Int.{ℤ}
use uma_go_sdk.Go.Result.{Result, ok, panic, ◌>>=◌, deref}
use uma_go_sdk.Go.Time.{Time}
use uma_go_sdk.Go.Json.{
  Json, Members, JsonLib, object, to_interface_members, get_member, set_member, struct_of,
}
use uma_go_sdk.Go.Json.Safe.{bind-ne-panic, guard-ne-panic, ok-ne-panic, members-ne-panic}
use uma_go_sdk.Crypto.{Crypto}
use uma_go_sdk.Protocol.LnurlpRequest.{is_set}
use uma_go_sdk.Protocol.PayerData.{payer_identifier}
use uma_go_sdk.Protocol.PayeeData.{
  PayeeData, CompliancePayeeData, payee_as_map, payee_fields, payee_payload,
}
use uma_go_sdk.Protocol.PayRequest.{PayRequest, is_uma_pay_request, is_uma}
use uma_go_sdk.Protocol.PayReqResponse.{PayReqResponse, PayReqResponsePaymentInfo}
use uma_go_sdk.Protocol.CounterParty.{field_string}
use uma_go_sdk.Uma.Signing.{generate_nonce, sign_payload, sign_payload_to_bytes}
use uma_go_sdk.Uma.PayResponse.Metadata.{
  decode_metadata, add_invoice_uuid_to_metadata, optional_invoice_uuid,
}
use uma_go_sdk.Uma.PayResponse.Metadata.Safe.{metadata-ne-panic}
use uma_go_sdk.Uma.PayResponse.Checked.{
  deref-ne-panic, sending-ne-panic, checked_uma, uma_identifier, payment-ne-panic, fields-ne-panic,
}
use uma_go_sdk.Uma.PayResponse.{
  ResponseTerms, check_sending_currency, validate_pay_req_currency_fields,
  validate_uma_pay_req_fields, payment_of, is_nil, msats_amount, with_identifier, given_payee_data,
  add_compliance, payer_data_text, get_signed_compliance_payee_data, uma_payee_data,
  get_pay_req_response,
}

-- Libraries, random draws and an invoice creator that do not panic; the creator returns no nil.
pub record NeverPanics (crypto : Crypto) (lib : JsonLib)
    (create_invoice : ℤ → Bytes → Option Bytes → Result (Option Bytes)) (draw : Result ℕ)
    : Type 0 where
  pub writes : (v : Json) → lib.write v ≢ panic
  pub reads : (s : Bytes) → lib.read s ≢ panic
  pub parses : (s : Bytes) → lib.float.parse s ≢ panic
  pub prints : (bits : ℕ) → lib.float.print bits ≢ panic
  pub signs : (random key hashed : Bytes) → crypto.sign random key hashed ≢ panic
  pub draws : draw ≢ panic
  pub creates : (a : ℤ) (m : Bytes) (r : Option Bytes) → create_invoice a m r ≢ panic
  pub not_nil : (a : ℤ) (m : Bytes) (r : Option Bytes) → create_invoice a m r ≢ ok none

-- The response of these parts.
abbrev response_of :
    PayRequest
    → ResponseTerms
    → Option PayeeData
    → Option PayReqResponsePaymentInfo
    → Bytes
    → PayReqResponse
response_of request t payee_data payment_info encoded_invoice = record {
  encoded_invoice = encoded_invoice;
  routes = some [];
  payment_info = payment_info;
  payee_data = payee_data;
  disposable = t.disposable;
  success_action = t.success_action;
  uma_major_version = request.uma_major_version;
}

module _ (crypto : Crypto) (lib : JsonLib)
    (create_invoice : ℤ → Bytes → Option Bytes → Result (Option Bytes)) (draw : Result ℕ)
    (calm : NeverPanics crypto lib create_invoice draw) (random : Bytes) (now : Time) where
  payer_text-ne-panic : (d : Option Members) → payer_data_text lib d ≢ panic
  unfolding payer_data_text
  payer_text-ne-panic none = λ e. cc
  payer_text-ne-panic (some d) = calm.writes _

  uuid-ne-panic :
      (metadata : Bytes) (uuid : Option Bytes) → optional_invoice_uuid lib metadata uuid ≢ panic
  unfolding optional_invoice_uuid add_invoice_uuid_to_metadata
  uuid-ne-panic metadata none = λ e. cc
  uuid-ne-panic metadata (some uuid) =
      bind-ne-panic (lib.read metadata) _ (calm.reads metadata) (λ v e.
        bind-ne-panic (decode_metadata lib.float v) _
          (metadata-ne-panic lib.float calm.parses calm.prints v) (λ rows e'. calm.writes _))

  compliance-ne-panic :
      (private_key payer payee : Bytes) (t : ResponseTerms)
      → get_signed_compliance_payee_data crypto draw random now private_key payer payee t ≢ panic
  unfolding get_signed_compliance_payee_data generate_nonce payee_payload sign_payload
      sign_payload_to_bytes
  compliance-ne-panic private_key payer payee t =
      bind-ne-panic (generate_nonce draw) _ (bind-ne-panic draw _ calm.draws (λ n e. ok-ne-panic _))
        (λ nonce e.
          bind-ne-panic (sign_payload crypto random _ private_key) _
            (bind-ne-panic (sign_payload_to_bytes crypto random _ private_key) _
              (calm.signs random private_key _) (λ s e'. ok-ne-panic _))
            (λ s e'. ok-ne-panic _))

  add-ne-panic : (d : PayeeData) (c : CompliancePayeeData) → add_compliance lib d c ≢ panic
  unfolding add_compliance payee_as_map field_string
  add-ne-panic d c = chosen (is_nil (get_member (codes "compliance") d))
    where
      chosen :
          (b : Bool)
          → (if b
              then (to_interface_members lib.float (struct_of (payee_fields c)) >>= λ m.
                  ok (set_member (codes "compliance") (object m) d))
              else ok d)
            ≢ panic
      chosen false = ok-ne-panic d
      chosen true =
          bind-ne-panic (to_interface_members lib.float (struct_of (payee_fields c))) _
            (members-ne-panic lib.float calm.parses calm.prints (struct_of (payee_fields c)))
            (λ m e. ok-ne-panic (set_member (codes "compliance") (object m) d))

  identifier-ne-panic :
      (given : Option (Option PayeeData)) (payee : Bytes)
      → given ≢ some none
      → with_identifier given payee ≢ panic
  unfolding with_identifier
  identifier-ne-panic none payee h = ok-ne-panic _
  identifier-ne-panic (some none) payee h = absurd (h refl)
  identifier-ne-panic (some (some d)) payee h = ok-ne-panic _

  payee-ne-panic :
      (request : PayRequest) (t : ResponseTerms)
      → t.payee_data ≢ some none
      → is_uma_pay_request request ≡ true
      → uma_payee_data crypto lib draw random now request t ≢ panic
  unfolding uma_payee_data
  payee-ne-panic request t not_nil is_uma =
      bind-ne-panic (validate_uma_pay_req_fields t) _ (fields-ne-panic t) (λ u valid.
        let (has_key, has_payee) = checked_uma t valid in
        bind-ne-panic (deref (payer_identifier request.payer_data)) _
          (deref-ne-panic (payer_identifier request.payer_data) (uma_identifier request is_uma))
          (λ payer e.
            bind-ne-panic (deref t.receiving_vasp_private_key) _
              (deref-ne-panic t.receiving_vasp_private_key has_key)
              (λ key e'.
                bind-ne-panic (deref t.payee_identifier) _
                  (deref-ne-panic t.payee_identifier has_payee)
                  (λ payee e''.
                    bind-ne-panic
                      (get_signed_compliance_payee_data crypto draw random now key payer payee t) _
                      (compliance-ne-panic key payer payee t)
                      (λ c e₃.
                        bind-ne-panic (with_identifier t.payee_data payee) _
                          (identifier-ne-panic t.payee_data payee not_nil)
                          (λ d e₄.
                            bind-ne-panic (add_compliance lib d c) _ (add-ne-panic d c)
                              (λ d' e₅. ok-ne-panic (some d'))))))))

  optional_payee-ne-panic :
      (request : PayRequest) (t : ResponseTerms)
      → (is_uma_pay_request request ≡ false) ⊎ (t.payee_data ≢ some none)
      → (if is_uma_pay_request request
          then uma_payee_data crypto lib draw random now request t
          else ok (given_payee_data t.payee_data))
        ≢ panic
  optional_payee-ne-panic request t writable = chosen (is_uma_pay_request request) refl
    where
      chosen :
          (b : Bool)
          → is_uma_pay_request request ≡ b
          → (if b
              then uma_payee_data crypto lib draw random now request t
              else ok (given_payee_data t.payee_data))
            ≢ panic
      chosen true is_uma = elim writable [
        | inl not_uma ↦ cc
        | inr not_nil ↦ payee-ne-panic request t not_nil is_uma
      ]
      chosen false is_uma = ok-ne-panic _

  invoice-ne-panic :
      (a : ℤ) (m : Bytes) (r : Option Bytes) (invoice : Option Bytes)
      → create_invoice a m r ≡ ok invoice
      → deref invoice ≢ panic
  invoice-ne-panic a m r none e = absurd (calm.not_nil a m r e)
  invoice-ne-panic a m r (some s) e = λ k. cc

  -- GetPayReqResponse returns a response or an error and does not panic, if a request with a sending
  -- currency comes with a receiving currency code, a UMA request does not come with a pointer to a nil
  -- map of payee data, and the libraries, the random draw and the invoice creator do not panic and the
  -- creator returns no nil: no other missing argument makes it panic.
  pub get_pay_req_response-ne-panic :
      (request : PayRequest) (t : ResponseTerms)
      → (request.sending_amount_currency_code ≡ none) ⊎ (is_set t.receiving_currency_code ≡ true)
      → (is_uma_pay_request request ≡ false) ⊎ (t.payee_data ≢ some none)
      → get_pay_req_response crypto lib create_invoice draw random now request t ≢ panic
  unfolding get_pay_req_response
  get_pay_req_response-ne-panic request t sending writable =
      bind-ne-panic
        (check_sending_currency request.sending_amount_currency_code t.receiving_currency_code) _
        (sending-ne-panic request.sending_amount_currency_code t.receiving_currency_code sending)
        (λ u accepted.
          bind-ne-panic (validate_pay_req_currency_fields t) _
            (unfold validate_pay_req_currency_fields in guard-ne-panic _ _)
            (λ u' valid.
              bind-ne-panic (payer_data_text lib request.payer_data) _
                (payer_text-ne-panic request.payer_data)
                (λ payer_text e.
                  bind-ne-panic (optional_invoice_uuid lib t.metadata request.invoice_uuid) _
                    (uuid-ne-panic t.metadata request.invoice_uuid)
                    (λ metadata e'.
                      bind-ne-panic
                        (create_invoice (msats_amount lib.float request t) (metadata ++ payer_text)
                          t.payee_identifier)
                        _
                        (calm.creates (msats_amount lib.float request t) (metadata ++ payer_text)
                          t.payee_identifier)
                        (λ invoice created. answered request t writable valid invoice (
                          invoice-ne-panic (msats_amount lib.float request t)
                            (metadata ++ payer_text) t.payee_identifier invoice created))))))
    where
      answered :
          (request : PayRequest) (t : ResponseTerms)
          → (is_uma_pay_request request ≡ false) ⊎ (t.payee_data ≢ some none)
          → validate_pay_req_currency_fields t ≡ ok tt
          → (invoice : Option Bytes) → deref invoice ≢ panic
          → ((if is_uma_pay_request request
                then uma_payee_data crypto lib draw random now request t
                else ok (given_payee_data t.payee_data))
              >>= λ payee_data.
                  payment_of lib.float request t t.receiving_currency_code >>= λ payment_info.
                  deref invoice >>= λ encoded_invoice.
                  ok (response_of request t payee_data payment_info encoded_invoice))
            ≢ panic
      answered request t writable valid invoice h =
          bind-ne-panic _ _ (optional_payee-ne-panic request t writable) (λ d e.
            bind-ne-panic (payment_of lib.float request t t.receiving_currency_code) _
              (payment-ne-panic lib.float request t valid t.receiving_currency_code refl)
              (λ p e'. bind-ne-panic (deref invoice) _ h (λ s e''. ok-ne-panic _)))
