-- ===== src/Protocol/CounterParty/RoundTrip.antt =====
-- The written form of the options (uma/protocol/counter_party_data.go) and back.
use uma_go_sdk.Base.{
  ℕ, Bool, true, false, none, List, [], ◌∷◌, ◌++◌, ◌≡◌, ◌≢◌, refl, arith, Bytes, codes, eqb,
  eqb_iff, map, All, All-append, Lacks, append-nil, append_assoc, if◌then◌else◌, ◌∙◌, ap,
}
use uma_go_sdk.Go.Result.{ok, err, invalid_pair, ◌>>=◌}
use uma_go_sdk.Go.Strings.{split, join, split-append, split-join}
use uma_go_sdk.Go.Sort.{sort_strings}
use uma_go_sdk.Go.Map.{lookup, insert, NodupKeys}
use uma_go_sdk.Protocol.CounterParty.{
  CounterPartyDataOption, CounterPartyDataOptions, pair_string, marshal_bytes, unmarshal_bytes,
  add_parts, add_pairs,
}
use uma_go_sdk.Protocol.CounterParty.Sorted.{
  Entry, IsPlain, sort_entries, map-sort_entries, sort_entries-All, sort_entries-NodupKeys,
  sorted-ne-nil, lookup-sort_entries,
}

insert-append :
    (k : Bytes) (v : CounterPartyDataOption) (es : CounterPartyDataOptions)
    → lookup k es ≡ none
    → insert k v es ≡ es ++ (k, v) ∷ []
unfolding insert lookup
insert-append k v [] h = refl
insert-append k v ((j, w) ∷ es) h = ground (arith, insert-append k v es)

lookup-middle :
    (k j : Bytes) (v : CounterPartyDataOption) (es fs : CounterPartyDataOptions)
    → lookup j (es ++ (k, v) ∷ fs) ≡ none
    → eqb k j ≡ false
unfolding lookup
lookup-middle k j v [] fs h = ground arith
lookup-middle k j v ((i, w) ∷ es) fs h = ground (arith, lookup-middle k j v es fs)

NodupKeys-middle :
    (k : Bytes) (v : CounterPartyDataOption) (es fs : CounterPartyDataOptions)
    → NodupKeys (es ++ (k, v) ∷ fs)
    → lookup k es ≡ none
unfolding lookup
NodupKeys-middle k v [] fs h = refl
NodupKeys-middle k v ((j, w) ∷ es) fs h =
    ground
      (arith, lookup-middle k j v es fs, eqb_iff j k, eqb_iff k j, NodupKeys-middle k v es fs h.1)

add_parts-bit :
    (b : Bool) (k : Bytes) (es : CounterPartyDataOptions)
    → Lacks b':' k
    → add_parts es (split b':' (pair_string (k, record { mandatory = b })))
      ≡ ok (insert k (record { mandatory = b }) es)
add_parts-bit true k es h =
    unfold pair_string in
    rw (split-append b':' k (codes "1") h) (unfold split add_parts eqb in refl)
add_parts-bit false k es h =
    unfold pair_string in
    rw (split-append b':' k (codes "0") h) (unfold split add_parts eqb in refl)

add_pairs-map :
    (es fs : CounterPartyDataOptions)
    → All IsPlain fs
    → NodupKeys (es ++ fs)
    → add_pairs es (map pair_string fs) ≡ ok (es ++ fs)
unfolding add_pairs
add_pairs-map es [] h n = rw append-nil
add_pairs-map es ((k, v) ∷ fs) h n =
    ap (λ r. r >>= λ c. add_pairs c (map pair_string fs)) (add_parts-bit v.mandatory k es h.0.0)
    ∙ ap (λ c. add_pairs c (map pair_string fs))
        (insert-append k v es (NodupKeys-middle k v es fs n))
    ∙ add_pairs-map (es ++ (k, v) ∷ []) fs h.1 (rw append_assoc n)
    ∙ ap ok (append_assoc es ((k, v) ∷ []) fs)

split-join_list :
    (sep : ℕ) (ss : List Bytes) → ss ≢ [] → All (Lacks sep) ss → split sep (join sep ss) ≡ ss
split-join_list sep [] ne h = absurd (ne refl)
split-join_list sep (p ∷ ps) ne h = split-join sep p ps h

pair_string-Lacks : (e : Entry) → IsPlain e → Lacks b',' (pair_string e)
unfolding pair_string
pair_string-Lacks (k, v) h = All-append (λ c. c ≢ b',') k _ h.1 (bit v.mandatory)
  where
    bit : (b : Bool) → Lacks b',' (b':' ∷ (if b then codes "1" else codes "0"))
    bit true = omega arith
    bit false = omega arith

map-Lacks : (es : CounterPartyDataOptions) → All IsPlain es → All (Lacks b',') (map pair_string es)
map-Lacks [] h = tt
map-Lacks (e ∷ es) h = (pair_string-Lacks e h.0, map-Lacks es h.1)

-- Options that are not empty, with distinct keys that hold neither a colon nor a comma, are read back
-- from their bytes, in the order of their strings; each key has the option that it had before.
pub options-unmarshal-marshal :
    (es : CounterPartyDataOptions)
    → es ≢ []
    → NodupKeys es
    → All IsPlain es
    → (unmarshal_bytes (marshal_bytes es) ≡ ok (sort_entries es))
      × ((k : Bytes) → lookup k (sort_entries es) ≡ lookup k es)
options-unmarshal-marshal es ne n plain = (
  unfold unmarshal_bytes marshal_bytes in
      rw (← map-sort_entries es) (
        rw
          (split-join_list b',' (map pair_string (sort_entries es)) (sorted-ne-nil es ne)
            (map-Lacks (sort_entries es) (sort_entries-All IsPlain es plain)))
          (add_pairs-map [] (sort_entries es) (sort_entries-All IsPlain es plain)
            (sort_entries-NodupKeys es n))),
  λ k. lookup-sort_entries k es n,
)

-- The bytes of empty options are empty, and are refused when they are read.
pub unmarshal-marshal_empty : unmarshal_bytes (marshal_bytes []) ≡ err invalid_pair
unfolding unmarshal_bytes marshal_bytes sort_strings join split
unmarshal-marshal_empty = refl
