-- ===== src/Protocol/PayerData/RoundTrip.antt =====
-- Compliance data of the payer as a map and back (uma/protocol/payer_data.go).
use uma_go_sdk.Base.{
  true, ◌≡◌, refl, ap, sym, arith, Option, none, some, [], ◌∷◌, ◌++◌, Bytes, eqb, Lacks,
}
use uma_go_sdk.Base.Int.{IsInt64}
use uma_go_sdk.Go.Result.{ok}
use uma_go_sdk.Go.Strings.{split-append, split-Lacks}
use uma_go_sdk.Go.Json.{Json, Members, JsonLib, text, object, struct_of}
use uma_go_sdk.Go.Json.Decode.{decode_text, decode_pointer, encode_pointer}
use uma_go_sdk.Go.Json.Laws.{
  IsFloat64, text_pointer-stable, texts_pointer-stable, IsExactInt, get-struct_of, or_else-none,
  decode-text_pointer, decode-texts_pointer, decode-int, HasStable, FieldsAreStable, OptionIsStable,
  struct_of-HasStable, to_interface_members-id, marshal_members-id,
}
use uma_go_sdk.Protocol.KycStatus.{known}
use uma_go_sdk.Protocol.KycStatus.Json.{status_field, marshal_status, status-unmarshal-marshal}
use uma_go_sdk.Protocol.PayerData.{
  TravelRuleFormat, CompliancePayerData, contains, rule_text, format_of_parts, parse_rule,
  unmarshal_rule, payer_fields, unmarshal_payer, compliance_of, marshal_rule, rule_field,
  payer_as_map,
}

contains-append : (s t : Bytes) → contains b'@' (s ++ b'@' ∷ t) ≡ true
unfolding contains
contains-append [] t = refl
contains-append (c ∷ s) t = ground (arith, contains-append s t)

parse_rule-parts :
    (s t : Bytes)
    → Lacks b'@' s
    → Lacks b'@' t
    → parse_rule (s ++ b'@' ∷ t) ≡ ok (record { format_type = s; version = some t })
unfolding parse_rule format_of_parts
parse_rule-parts s t hs ht =
    rw (contains-append s t, split-append b'@' s t hs) (rw (split-Lacks b'@' t ht) refl)

module _ (lib : JsonLib) where
  -- A format that is written as a text: it has a version, no part has an `@`, and its quoted text is
  -- JSON for that text.
  abbrev pub RuleIsWritable : Option TravelRuleFormat → Type 0
  RuleIsWritable none = Unit
  RuleIsWritable (some t) =
      (version : Bytes) × (t.version ≡ some version)
      × Lacks b'@' t.format_type
      × Lacks b'@' version
      × (lib.read (rule_text t.format_type (some version))
          ≡ ok (text (t.format_type ++ b'@' ∷ version)))

  rule_field-document :
      (rule : Option TravelRuleFormat)
      → RuleIsWritable rule
      → (v : Option Json) × (rule_field lib rule ≡ ok v)
        × (decode_pointer unmarshal_rule v ≡ ok rule)
        × OptionIsStable lib.float v
  unfolding rule_field decode_pointer unmarshal_rule decode_text marshal_rule
  rule_field-document none h = (none, refl, refl, tt)
  rule_field-document (some t) (version, ev, hs, ht, er) = (
    some (text (t.format_type ++ b'@' ∷ version)),
    rw ev (rw er refl),
    rw (parse_rule-parts t.format_type version hs ht) (
        ap (λ (v : Option Bytes). ok (some (record { format_type = t.format_type; version = v })))
          (sym ev)),
    tt,
  )

  -- Compliance data that a map of JSON values keeps: the status has a constant, the format is written
  -- as a text, and a float64 holds the timestamp exactly.
  pub record IsKept (c : CompliancePayerData) : Type 0 where
    pub status : known c.kyc_status ≡ c.kyc_status
    pub rule : RuleIsWritable c.travel_rule_format
    pub timestamp : IsInt64 c.signature_timestamp
    pub exact : IsExactInt c.signature_timestamp

  unmarshal-fields :
      (c : CompliancePayerData) (v : Option Json)
      → IsKept c
      → decode_pointer unmarshal_rule v ≡ ok c.travel_rule_format
      → unmarshal_payer (struct_of (payer_fields c v)) ≡ ok c
  unfolding unmarshal_payer payer_fields eqb status_field decode_text marshal_status
  unmarshal-fields c v kept e = simp (
    get-struct_of,
    or_else-none,
    decode-texts_pointer c.utxos,
    decode-text_pointer c.node_pub_key,
    decode-text_pointer c.encrypted_travel_rule_info,
    e,
    status-unmarshal-marshal c.kyc_status,
    kept.status,
    decode-int c.signature_timestamp kept.timestamp,
  )

  module _ (floats : IsFloat64 lib.float) where
    fields-stable :
        (c : CompliancePayerData) (v : Option Json)
        → IsKept c
        → OptionIsStable lib.float v
        → FieldsAreStable lib.float (payer_fields c v)
    unfolding payer_fields encode_pointer marshal_status
    fields-stable c v kept e = (
      texts_pointer-stable lib.float c.utxos,
      (
        text_pointer-stable lib.float c.node_pub_key,
        (
          tt,
          (
            text_pointer-stable lib.float c.encrypted_travel_rule_info,
            (e, (tt, (tt, (floats.print_integer c.signature_timestamp kept.exact, (tt, tt))))),
          ),
        ),
      ),
    )

    -- Kept compliance data become a map that `Compliance` reads back whole.
    pub payer-as_map :
        (c : CompliancePayerData)
        → IsKept c
        → (ms : Members) × (payer_as_map lib c ≡ ok ms)
          × (compliance_of (some (object ms)) ≡ ok (some c))
          × HasStable lib.float ms
    unfolding payer_as_map compliance_of
    payer-as_map c kept =
        let (v, ev, ed, es) = rule_field-document c.travel_rule_format kept.rule in
        let ms = struct_of (payer_fields c v) in
        let stable = struct_of-HasStable lib.float (payer_fields c v) (fields-stable c v kept es) in
        (
          ms,
          rw ev (to_interface_members-id lib.float ms stable),
          rw (marshal_members-id lib.float ms stable) (rw (unmarshal-fields c v kept ed) refl),
          stable,
        )
