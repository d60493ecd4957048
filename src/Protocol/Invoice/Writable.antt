-- ===== src/Protocol/Invoice/Writable.antt =====
-- Which invoices (uma/protocol/invoice.go) have a TLV form that can be read back.
use uma_go_sdk.Base.{◌≤◌, ◌<◌, ◌≡◌, ◌≢◌, refl, none, some, [], Bytes, codes, length}
use uma_go_sdk.Base.Int.{pos, IsInt64}
use uma_go_sdk.Go.Result.{ok}
use uma_go_sdk.Go.Strconv.{max_u64, parse_int, parse_uint}
use uma_go_sdk.Protocol.KycStatus.{KycStatus, known}
use uma_go_sdk.Utils.Tlv.{
  string_value, int_value, uint_value, slice_value, tlv_codable, bytes_codable, tag_byte, handle,
  marshal_tlv, entry,
}
use uma_go_sdk.Utils.Tlv.Coders.{Codable, data_options}
use uma_go_sdk.Utils.Tlv.Encodable.{IsEncodable, of_tlv, no_fields, IsShortContent}
use uma_go_sdk.Protocol.Invoice.{
  InvoiceCurrency, UmaInvoice, currency_fields, later_fields, invoice_fields,
}
use uma_go_sdk.Protocol.Invoice.FieldLaws.{
  absent, WhenSome, HasShortText, content_field, string_field, uint64_field, uint8_field,
  bool_field, pointer_field, WhenSome-map, int_content, uint_content, text_content, options_content,
  kyc_content, slice_content,
}

-- An invoice whose contents fit in their length bytes and whose numbers fit in their types, with a
-- status that has a constant, options that can be written, and a signature that is not nil, if any.
pub record IsWritable (i : UmaInvoice) : Type 0 where
  pub receiver_uma : length i.receiver_uma ≤ 255
  pub invoice_uuid : length i.invoice_uuid ≤ 255
  pub amount : i.amount ≤ max_u64
  pub receiving_currency :
      IsShortContent (handle (tlv_codable (currency_fields i.receiving_currency)))
  pub currency_code : length i.receiving_currency.code ≤ 255
  pub currency_name : length i.receiving_currency.name ≤ 255
  pub currency_symbol : length i.receiving_currency.symbol ≤ 255
  pub decimals : i.receiving_currency.decimals < 256
  pub expiration : i.expiration ≤ max_u64
  pub required_payer_data : WhenSome HasShortText i.required_payer_data
  pub uma_versions : length i.uma_versions ≤ 255
  pub comment_chars_allowed : WhenSome IsInt64 i.comment_chars_allowed
  pub sender_uma : WhenSome (λ s. length s ≤ 255) i.sender_uma
  pub max_num_payments : WhenSome (λ n. n ≤ max_u64) i.max_num_payments
  pub kyc_status : WhenSome (λ k. known k ≡ k) i.kyc_status
  pub callback : length i.callback ≤ 255
  pub signature : WhenSome (λ o. (s : Bytes) × (o ≡ some s) × (length s ≤ 255)) i.signature

currency-IsEncodable :
    (c : InvoiceCurrency)
    → length c.code ≤ 255
    → length c.name ≤ 255
    → length c.symbol ≤ 255
    → c.decimals < 256
    → IsEncodable (currency_fields c)
unfolding currency_fields absent tag_byte parse_int parse_uint
currency-IsEncodable c code name symbol decimals =
    string_field (codes "0") _ 0 refl refl
      (string_field (codes "1") _ 1 refl refl
        (string_field (codes "2") _ 2 refl refl
          (uint8_field (codes "3") _ 3 refl refl no_fields c.decimals decimals) c.symbol symbol)
        c.name name)
      c.code code

currency-ne-nil : (c : InvoiceCurrency) → marshal_tlv (currency_fields c) ≢ ok []
unfolding currency_fields marshal_tlv handle entry tag_byte parse_int parse_uint
currency-ne-nil c e = cc

module _ (i : UmaInvoice) (w : IsWritable i) where
  later-IsEncodable : IsEncodable (later_fields i)
  unfolding later_fields absent tag_byte parse_int parse_uint
  later-IsEncodable =
      string_field (codes "7") _ 7 refl refl
        (pointer_field (codes "8") _ 8 refl refl
          (pointer_field (codes "9") _ 9 refl refl
            (pointer_field (codes "10") _ 10 refl refl
              (pointer_field (codes "11") _ 11 refl refl
                (string_field (codes "12") _ 12 refl refl
                  (pointer_field (codes "100") _ 100 refl refl no_fields (slice_value none)
                    slice_value i.signature (WhenSome-map i.signature slice_content w.signature))
                  i.callback w.callback)
                (bytes_codable (Codable.kyc_status KycStatus.unknown))
                (λ k. bytes_codable (Codable.kyc_status k)) i.kyc_status
                (WhenSome-map i.kyc_status kyc_content w.kyc_status))
              (uint_value 64 0) (uint_value 64) i.max_num_payments
              (WhenSome-map i.max_num_payments uint_content w.max_num_payments))
            (string_value []) string_value i.sender_uma
            (WhenSome-map i.sender_uma text_content w.sender_uma))
          (int_value 64 (pos 0)) (int_value 64) i.comment_chars_allowed
          (WhenSome-map i.comment_chars_allowed int_content w.comment_chars_allowed))
        i.uma_versions w.uma_versions

  pub invoice-IsEncodable : IsEncodable (invoice_fields i)
  unfolding invoice_fields absent tag_byte parse_int parse_uint
  invoice-IsEncodable =
      string_field (codes "0") _ 0 refl refl
        (string_field (codes "1") _ 1 refl refl
          (uint64_field (codes "2") _ 2 refl refl
            (content_field (codes "3") _ 3 refl refl
              (uint64_field (codes "4") _ 4 refl refl
                (bool_field (codes "5") _ 5 refl refl
                  (pointer_field (codes "6") _ 6 refl refl later-IsEncodable
                    (bytes_codable (data_options [])) (λ c. bytes_codable (data_options c))
                    i.required_payer_data
                    (WhenSome-map i.required_payer_data options_content w.required_payer_data))
                  i.is_subject_to_travel_rule)
                i.expiration w.expiration)
              (tlv_codable (currency_fields i.receiving_currency))
              (of_tlv
                (currency-IsEncodable i.receiving_currency w.currency_code w.currency_name
                  w.currency_symbol w.decimals)
                (currency-ne-nil i.receiving_currency))
              w.receiving_currency)
            i.amount w.amount)
          i.invoice_uuid w.invoice_uuid)
        i.receiver_uma w.receiver_uma
