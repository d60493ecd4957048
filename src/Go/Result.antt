-- ===== src/Go/Result.antt =====
-- What a Go function with an error result does: it returns a value, returns an error, or panics.
use uma_go_sdk.Base.{◌≡◌, refl, Bool, true, false, Option, none, some, List, Bytes}
use uma_go_sdk.Base.Int.{ℤ}

-- One constructor for each `errors.New` or `fmt.Errorf` of the modelled code, named for its text;
-- `library_error` stands for an error that comes from a library and is passed on.
pub data Error : Type 0 where
  library_error : Error
  timestamp_too_old nonce_already_used : Error
  unsupported_kind incomplete_tlv incomplete_value missing_tlv bad_number : Error
  invalid_pair : Error
  signature_required invalid_human_readable_part : Error
  invalid_vasp_response : Error
  invalid_receiver_address missing_timestamp_or_nonce : Error
  missing_callback_fields : Error
  missing_compliance_data missing_nonce_or_timestamp : Error
  missing_amount invalid_amount missing_payer_data missing_identifier : Error
  json_type_error invalid_travel_rule_format : Error
  unsupported_sending_currency invalid_currency_fields missing_currency_fields : Error
  missing_payee_identifier missing_signing_key missing_utxos_or_node_key v0_response_unsigned :
      Error
  empty_certificate_chain pem_not_decoded signing_pub_key_missing encryption_pub_key_missing : Error
  invalid_uma_signature missing_signature : Error
  invalid_timestamp invalid_request_path invalid_username invalid_uma_address : Error
  missing_uma_field : Bytes → Error
  unsupported_version : Bytes → List ℤ → Error

pub data Result {ℓ} (A : Type ℓ) : Type ℓ where
  ok : A → Result A
  err : Error → Result A
  panic : Result A

-- An early return of an error, unless the condition holds.
abbrev pub guard : Bool → Error → Result (Unit {0})
guard false problem = err problem
guard true problem = ok tt

-- A call that reports its failure: `none` becomes the error.
abbrev pub or_error {ℓ} : {A : Type ℓ} → Option A → Error → Result A
or_error none problem = err problem
or_error (some value) problem = ok value

-- A pointer that is followed: nil panics.
abbrev pub deref {ℓ} : {A : Type ℓ} → Option A → Result A
deref none = panic
deref (some target) = ok target

infixl 5 ◌>>=◌ ◌>>◌
-- The statements that follow a call; an error is returned and a panic goes on.
abbrev pub ◌>>=◌ {ℓ κ} : {A : Type ℓ} {B : Type κ} → Result A → (A → Result B) → Result B
panic >>= next = panic
err problem >>= next = err problem
ok value >>= next = next value

abbrev pub ◌>>◌ {ℓ} : {B : Type ℓ} → Result (Unit {0}) → Result B → Result B
call >> next = call >>= λ _. next

-- A chain of calls has a value only if its first call has.
pub >>=-ok {ℓ κ} :
    {A : Type ℓ} {B : Type κ} (call : Result A) (next : A → Result B) {result : B}
    → (call >>= next) ≡ ok result
    → (value : A) × (call ≡ ok value) × (next value ≡ ok result)
>>=-ok panic next h = cc
>>=-ok (err problem) next h = cc
>>=-ok (ok value) next h = (value, refl, h)

pub ok_injective {ℓ} : {A : Type ℓ} {a b : A} → ok a ≡ ok b → a ≡ b
ok_injective h = cc
