-- ===== src/Uma/PayResponse/Given.antt =====
-- The payee data and the terms that an answer of uma/uma.go is given.
use uma_go_sdk.Base.{
  ℕ, Bool, true, false, ◌||◌, ◌≡◌, refl, ◌∙◌, Option, none, some, Bytes, codes, eqb, if◌then◌else◌,
}
use uma_go_sdk.Base.Int.{ℤ}
use uma_go_sdk.Go.Result.{ok}
use uma_go_sdk.Go.Json.{
  member, no_members, Members, Float64, marshal, text, object, get_member, set_member,
  marshal_members,
}
use uma_go_sdk.Go.Json.Laws.{
  HasStable, marshal_members-id, set_member-HasStable, get_member-marshal, get-set_member,
}
use uma_go_sdk.Protocol.CounterParty.{field_string}
use uma_go_sdk.Protocol.LnurlpRequest.{is_set}
use uma_go_sdk.Protocol.PayeeData.{PayeeData, payee_compliance, payee_compliance_of}
use uma_go_sdk.Protocol.PayRequest.RoundTrip.{sent_data}
use uma_go_sdk.Uma.PayResponse.{ResponseTerms, is_nil, with_identifier}

-- Payee data without compliance data that JSON keeps.
abbrev pub IsUnsigned : Float64 → PayeeData → Type 0
IsUnsigned float d =
    (get_member (codes "compliance") d ≡ none) × HasStable float (marshal_members d)

-- Payee data that may be given: none, or such a map that is not nil.
abbrev pub IsGiven : Float64 → Option (Option PayeeData) → Type 0
IsGiven float none = Unit
IsGiven float (some given) = (d : PayeeData) × (given ≡ some d) × IsUnsigned float d

-- They are given the identifier, which leaves them without compliance data.
pub with_identifier-IsUnsigned :
    (float : Float64) (given : Option (Option PayeeData)) (payee : Bytes)
    → IsGiven float given
    → (d : PayeeData) × (with_identifier given payee ≡ ok d) × IsUnsigned float d
unfolding with_identifier field_string get_member eqb marshal
with_identifier-IsUnsigned float none payee h =
    (member (codes "identifier") (text payee) no_members, refl, (refl, (tt, tt)))
with_identifier-IsUnsigned float (some none) payee (d, e, h) = cc
with_identifier-IsUnsigned float (some (some d)) payee (d', e, h) =
    let same : d' ≡ d = cc in
    (_, refl, chosen (is_nil (get_member (codes "identifier") d)) (rw same at h))
  where
    chosen :
        (b : Bool)
        → IsUnsigned float d
        → IsUnsigned float (if b then set_member (codes "identifier") (text payee) d else d)
    chosen true h = (
      get-set_member (codes "identifier") (codes "compliance") (text payee) d ∙ h.0,
      set_member-HasStable float (codes "identifier") (text payee) d tt h.1,
    )
    chosen false h = h

-- Compliance data that are put into such payee data are found by the receiver of the JSON form.
pub sent_compliance :
    (float : Float64) (d : PayeeData) (ms : Members)
    → HasStable float ms
    → payee_compliance (sent_data (some (set_member (codes "compliance") (object ms) d)))
      ≡ payee_compliance_of (some (object ms))
unfolding payee_compliance eqb marshal
sent_compliance float d ms stable =
    rw (get_member-marshal (codes "compliance") (set_member (codes "compliance") (object ms) d)) (
      rw (get-set_member (codes "compliance") (codes "compliance") (object ms) d)
        (rw (marshal_members-id float ms stable) refl))

-- The fields that a UMA request needs.
pub record HasTerms (t : ResponseTerms) (code : Bytes) (decimals : ℤ) (rate : ℕ) (fees : ℤ)
    (payee private_key : Bytes) : Type 0 where
  pub has_code : t.receiving_currency_code ≡ some code
  pub has_decimals : t.receiving_currency_decimals ≡ some decimals
  pub has_rate : t.conversion_rate ≡ some rate
  pub has_fees : t.receiver_fees_millisats ≡ some fees
  pub has_payee : t.payee_identifier ≡ some payee
  pub has_key : t.receiving_vasp_private_key ≡ some private_key
  pub has_source : (is_set t.receiver_channel_utxos || is_set t.receiver_node_pub_key) ≡ true
