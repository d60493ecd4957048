-- ===== src/Protocol/CounterParty/Json.antt =====
-- The JSON form that encoding/json gives to the options of uma/protocol/counter_party_data.go: an
-- object of objects with the field "mandatory".
use uma_go_sdk.Base.{Option, none, some, [], ◌∷◌, ◌≡◌, refl, codes, eqb}
use uma_go_sdk.Go.Result.{Result, ok, err, ◌>>=◌, json_type_error}
use uma_go_sdk.Go.Json.{
  Json, Members, Float64, null, object, boolean, no_members, member, get_member,
}
use uma_go_sdk.Go.Json.Decode.{decode_bool, decode_struct, decode_pointer, encode_pointer}
use uma_go_sdk.Go.Json.Laws.{HasStable, OptionIsStable}
use uma_go_sdk.Protocol.CounterParty.{CounterPartyDataOption, CounterPartyDataOptions}

option_json : CounterPartyDataOption → Json
option_json o = object (member (codes "mandatory") (boolean o.mandatory) no_members)

unfoldable pub options_members : CounterPartyDataOptions → Members
unfolding option_json
options_members [] = no_members
options_members ((k, o) ∷ c) = member k (option_json o) (options_members c)

decode_option : Json → Result CounterPartyDataOption
decode_option v = do
  ms ← decode_struct (some v)
  mandatory ← decode_bool (get_member (codes "mandatory") ms)
  ok (record { mandatory = mandatory })

decode_members : Members → Result CounterPartyDataOptions
unfolding decode_option
decode_members no_members = ok []
decode_members (member k v ms) = decode_option v >>= λ o. decode_members ms >>= λ c. ok ((k, o) ∷ c)

unfoldable pub decode_options : Option Json → Result CounterPartyDataOptions
unfolding decode_members
decode_options none = ok []
decode_options (some null) = ok []
decode_options (some (object ms)) = decode_members ms
decode_options (some _) = err json_type_error

abbrev pub options_json : CounterPartyDataOptions → Json
options_json c = object (options_members c)

decode-members : (c : CounterPartyDataOptions) → decode_members (options_members c) ≡ ok c
unfolding decode_members options_members decode_struct decode_bool get_member eqb
decode-members [] = refl
decode-members ((k, o) ∷ c) = rw (decode-members c) refl

pub decode-options_pointer :
    (p : Option CounterPartyDataOptions)
    → decode_pointer decode_options (encode_pointer options_json p) ≡ ok p
unfolding decode_pointer encode_pointer decode_options
decode-options_pointer none = refl
decode-options_pointer (some c) = rw (decode-members c) refl

options_members-HasStable :
    (float : Float64) (c : CounterPartyDataOptions) → HasStable float (options_members c)
unfolding options_members
options_members-HasStable float [] = tt
options_members-HasStable float ((k, o) ∷ c) = ((tt, tt), options_members-HasStable float c)

pub options_pointer-stable :
    (float : Float64) (p : Option CounterPartyDataOptions)
    → OptionIsStable float (encode_pointer options_json p)
unfolding encode_pointer
options_pointer-stable float none = tt
options_pointer-stable float (some c) = options_members-HasStable float c
