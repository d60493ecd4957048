-- ===== src/Uma/PayRequest/Carried.antt =====
-- What a signed pay request of uma/uma.go carries, and what is left of it in its JSON form.
use mathlib.Core.Path.{subst}
use uma_go_sdk.Base.{
  Bool, true, false, ◌≡◌, ◌≢◌, refl, sym, Option, none, some, [], ◌∷◌, Bytes, codes, eqb,
  if◌then◌else◌,
}
use uma_go_sdk.Base.Int.{pos}
use uma_go_sdk.Go.Result.{ok}
use uma_go_sdk.Go.Strings.{join}
use uma_go_sdk.Go.Strconv.{format_int}
use uma_go_sdk.Go.Json.{
  Members, JsonLib, Float64, marshal, text, object, get_member, marshal_members, string_pointer,
}
use uma_go_sdk.Go.Json.Laws.{HasStable, IsStable, marshal_members-id}
use uma_go_sdk.NonceCache.{in_memory}
use uma_go_sdk.Protocol.CounterParty.{field_string}
use uma_go_sdk.Protocol.PayerData.{
  PayerData, CompliancePayerData, payer_compliance, compliance_of, payer_identifier, string_field,
}
use uma_go_sdk.Protocol.PayRequest.{PayRequest, pay_request_payload, is_uma_pay_request}
use uma_go_sdk.Protocol.PayRequest.RoundTrip.{DataIsKept, CodeIsWritable, sent_data}
use uma_go_sdk.Protocol.CounterParty.{CounterPartyDataOptions}
use uma_go_sdk.Uma.PayRequest.{PayTerms, payer_members, request_with}

-- Payer data with this identifier and these compliance data.
abbrev pub Carries : PayRequest → Bytes → Members → Type 0
Carries q identifier ms =
    (d : PayerData) × (q.payer_data ≡ some d)
    × (get_member (codes "identifier") d ≡ some (text identifier))
    × (get_member (codes "compliance") d ≡ some (object ms))

-- The request as its receiver reads it.
abbrev pub sent_request : PayRequest → PayRequest
sent_request p = record p {
  invoice_uuid = none;
  uma_major_version = pos 1;
  payer_data = sent_data p.payer_data;
}

pub sent-Carries :
    (float : Float64) (terms : PayTerms) (options : CounterPartyDataOptions) (ms : Members)
    → HasStable float ms
    → Carries (sent_request (request_with terms options ms)) terms.payer_identifier ms
unfolding request_with payer_members get_member eqb field_string marshal
sent-Carries float terms options ms stable = (
  marshal_members (payer_members terms ms),
  refl,
  refl,
  rw (marshal_members-id float ms stable) refl,
)

pointer-IsStable :
    (float : Float64) (p : Option Bytes) → IsStable float (marshal (string_pointer p))
unfolding marshal
pointer-IsStable float none = tt
pointer-IsStable float (some s) = tt

pub request-DataIsKept :
    (lib : JsonLib) (terms : PayTerms) (options : CounterPartyDataOptions) (ms : Members)
    → HasStable lib.float ms
    → DataIsKept lib (request_with terms options ms).payer_data
unfolding request_with payer_members marshal
request-DataIsKept lib terms options ms stable = (
  pointer-IsStable lib.float terms.payer_name,
  (
    pointer-IsStable lib.float terms.payer_email,
    (tt, (subst (HasStable lib.float) (sym (marshal_members-id lib.float ms stable)) stable, tt)),
  ),
)

pub chosen_code :
    (b : Bool) (code : Bytes)
    → CodeIsWritable (some code)
    → CodeIsWritable (if b then some code else none)
chosen_code true code h = h
chosen_code false code h = tt

pub payload-Carries :
    (q : PayRequest) (identifier : Bytes) (ms : Members) (c : CompliancePayerData)
    → identifier ≢ []
    → Carries q identifier ms
    → compliance_of (some (object ms)) ≡ ok (some c)
    → pay_request_payload q
      ≡ ok (join b'|' (identifier ∷ c.signature_nonce ∷ format_int c.signature_timestamp ∷ []))
unfolding pay_request_payload payer_identifier string_field payer_compliance
payload-Carries q [] ms c ne carries eo = absurd (ne refl)
payload-Carries q (a ∷ address) ms c ne (d, ed, ei, ec) eo = simp (ed, ei, ec, eo)

-- Who reads such a request takes it for a UMA request of that payer.
pub Carries-is_uma :
    (q : PayRequest) (identifier : Bytes) (ms : Members) (c : CompliancePayerData)
    → Carries q identifier ms
    → compliance_of (some (object ms)) ≡ ok (some c)
    → (is_uma_pay_request q ≡ true) × (payer_identifier q.payer_data ≡ some identifier)
unfolding is_uma_pay_request payer_identifier string_field payer_compliance
Carries-is_uma q identifier ms c (d, ed, ei, ec) eo = (simp (ed, ec, eo, ei), simp (ed, ei))
