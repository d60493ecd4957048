-- ===== src/Uma/FetchTests.antt =====
-- The fetch of a key (FetchPublicKeyForVasp of uma/uma.go) at concrete inputs.
use uma_go_sdk.Base.{◌≡◌, refl, true, none, some, [], Bytes, codes}
use uma_go_sdk.Base.Int.{pos}
use uma_go_sdk.Go.Result.{Result, ok, err, library_error}
use uma_go_sdk.Go.Json.{Json, array, object, no_items, struct_of}
use uma_go_sdk.Protocol.PubKeyResponse.{PubKeyResponse}
use uma_go_sdk.Utils.Certs.{convert_pem_certificate_chain_to_hex_encoded_der}
use uma_go_sdk.Go.Map.{lookup}
use uma_go_sdk.Protocol.PubKeyResponse.Json.{chain_json, pub_key_fields, marshal_pub_key_response}
use uma_go_sdk.PublicKeyCache.{
  InMemoryPublicKeyCache, add_public_key_for_vasp, fetch_public_key_for_vasp, is_expired,
  in_memory_keys,
}
use uma_go_sdk.PublicKeyCache.Laws.{in_memory-KeepsKeys}
use uma_go_sdk.Uma.FetchKey.{HttpResponse, fetch_key}
use uma_go_sdk.Uma.FetchKey.Laws.{served_key}
use uma_go_sdk.Uma.Toy.{toy, toy-IsPem, vasp, now}
use uma_go_sdk.Uma.ToyJson.{toy_lib}

-- A VASP that serves a key, and one that cannot be reached.
abbrev served : PubKeyResponse
served = record vasp { expiration_timestamp = none }

abbrev document : Json
document = object (struct_of (pub_key_fields served (array no_items) (array no_items)))

abbrev answer : HttpResponse
answer = record { status_code = pos 200; body = ok (codes "body"); closes = true }

abbrev online : Bytes → Result HttpResponse
online url = ok answer

abbrev offline : Bytes → Result HttpResponse
offline url = err library_error

abbrev empty : InMemoryPublicKeyCache
empty = record { cache = [] }

document-written : marshal_pub_key_response toy served ≡ ok document
unfolding marshal_pub_key_response convert_pem_certificate_chain_to_hex_encoded_der chain_json
document-written = refl

nothing_cached : fetch_public_key_for_vasp now empty (codes "vasp1.com") ≡ none
unfolding fetch_public_key_for_vasp lookup
nothing_cached = refl

served_key_example :
    (fetch_key toy (toy_lib document) online now (codes "vasp1.com") empty
      ≡ (ok served, add_public_key_for_vasp empty (codes "vasp1.com") (some served)))
    × (fetch_key toy
          (toy_lib document)
          offline
          now
          (codes "vasp1.com")
          (add_public_key_for_vasp empty (codes "vasp1.com") (some served))
        ≡ (ok served, add_public_key_for_vasp empty (codes "vasp1.com") (some served)))
served_key_example =
    served_key toy (toy_lib document) toy-IsPem in_memory-KeepsKeys online offline now now
      (codes "vasp1.com") empty answer served document (codes "body") tt tt tt document-written refl
      refl refl refl refl nothing_cached (unfold is_expired in refl)
