-- ===== src/Protocol/CounterParty.antt =====
-- uma/protocol/counter_party_data.go. The entries of a map stand in the order in which `range` visits
-- them.
pub mod Sorted
pub mod RoundTrip
pub mod Order
pub mod Canonical
pub mod Json
mod Tests
use uma_go_sdk.Base.{
  Bool, true, false, List, [], ◌∷◌, ◌++◌, ◌≡◌, refl, Bytes, codes, eqb, map, if◌then◌else◌,
}
use uma_go_sdk.Go.Result.{Result, ok, err, invalid_pair, ◌>>=◌}
use uma_go_sdk.Go.Strings.{split, join}
use uma_go_sdk.Go.Sort.{sort_strings}
use uma_go_sdk.Go.Map.{Map, lookup, insert}

pub record CounterPartyDataOption : Type 0 where
  pub mandatory : Bool

abbrev pub CounterPartyDataOptions : Type 0
CounterPartyDataOptions = Map CounterPartyDataOption

pub data CounterPartyDataField : Type 0 where
  identifier name email country_code compliance account_number : CounterPartyDataField

unfoldable pub field_string : CounterPartyDataField → Bytes
field_string identifier = codes "identifier"
field_string name = codes "name"
field_string email = codes "email"
field_string country_code = codes "countryCode"
field_string compliance = codes "compliance"
field_string account_number = codes "accountNumber"

-- k + ":" + ("1" or "0")
pub pair_string : Bytes × CounterPartyDataOption → Bytes
pair_string (k, v) = k ++ b':' ∷ (if v.mandatory then codes "1" else codes "0")

unfoldable pub marshal_bytes : CounterPartyDataOptions → Bytes
unfolding pair_string
marshal_bytes c = join b',' (sort_strings (map pair_string c))

-- What a pair adds to the map; a pair that does not have exactly two parts is an error.
add_parts : CounterPartyDataOptions → List Bytes → Result CounterPartyDataOptions
add_parts c (key ∷ value ∷ []) = ok (insert key (record { mandatory = eqb value (codes "1") }) c)
add_parts c _ = err invalid_pair

add_pairs : CounterPartyDataOptions → List Bytes → Result CounterPartyDataOptions
add_pairs c [] = ok c
add_pairs c (pair ∷ pairs) = do c' ← add_parts c (split b':' pair); add_pairs c' pairs

unfoldable pub unmarshal_bytes : Bytes → Result CounterPartyDataOptions
unfolding add_parts add_pairs
unmarshal_bytes s = add_pairs [] (split b',' s)
