-- ===== src/Protocol/CounterParty/Tests.antt =====
-- The options of uma/protocol/counter_party_data.go at concrete values.
use uma_go_sdk.Base.{◌≡◌, ◌↔◌, refl, true, false, [], ◌∷◌, Bytes, codes, arith, le_bytes, eqb}
use uma_go_sdk.Go.Result.{ok}
use uma_go_sdk.Go.Map.{lookup}
use uma_go_sdk.Protocol.CounterParty.{CounterPartyDataOptions, marshal_bytes, unmarshal_bytes}
use uma_go_sdk.Protocol.CounterParty.Sorted.{sort_entries}
use uma_go_sdk.Protocol.CounterParty.RoundTrip.{options-unmarshal-marshal}
use uma_go_sdk.Protocol.CounterParty.Canonical.{SameMap, same_bytes_iff}
use uma_go_sdk.Go.Sort.{sort_strings}
use uma_go_sdk.Go.Strings.{join}

abbrev options : CounterPartyDataOptions
options =
    (codes "name", record { mandatory = false })
    ∷ (codes "identifier", record { mandatory = true })
    ∷ []

abbrev reversed : CounterPartyDataOptions
reversed =
    (codes "identifier", record { mandatory = true })
    ∷ (codes "name", record { mandatory = false })
    ∷ []

written : marshal_bytes options ≡ codes "identifier:1,name:0"
unfolding marshal_bytes sort_strings join le_bytes
written = refl

same_bytes_iff_example : (marshal_bytes options ≡ marshal_bytes reversed) ↔ SameMap options reversed
same_bytes_iff_example =
    same_bytes_iff options reversed ((cc), unfold lookup eqb in (refl, (refl, tt)), (omega arith))
      ((cc), unfold lookup eqb in (refl, (refl, tt)), (omega arith))

options-unmarshal-marshal_example :
    (unmarshal_bytes (marshal_bytes options) ≡ ok (sort_entries options))
    × ((k : Bytes) → lookup k (sort_entries options) ≡ lookup k options)
options-unmarshal-marshal_example =
    options-unmarshal-marshal options (cc) (unfold lookup eqb in (refl, (refl, tt))) (omega arith)
