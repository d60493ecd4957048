-- ===== src/Protocol/CounterParty/Sorted.antt =====
-- The options of uma/protocol/counter_party_data.go in the order in which they are written.
use uma_go_sdk.Base.{
  true, false, Option, none, some, [], ◌∷◌, ◌≡◌, ◌≢◌, refl, arith, Bytes, eqb, eqb_iff, map,
  le_bytes, All, Lacks, if◌then◌else◌, ◌∙◌, ap,
}
use uma_go_sdk.Go.Sort.{sort_strings, insert_sorted}
use uma_go_sdk.Go.Map.{lookup, NodupKeys}
use uma_go_sdk.Protocol.CounterParty.{CounterPartyDataOption, CounterPartyDataOptions, pair_string}

abbrev pub Entry : Type 0
Entry = Bytes × CounterPartyDataOption

-- A key can be written if it holds neither of the separators.
abbrev pub IsPlain : Bytes × CounterPartyDataOption → Type 0
IsPlain e = Lacks b':' e.0 × Lacks b',' e.0

-- The entries in the order of their strings.
insert_entry : Entry → CounterPartyDataOptions → CounterPartyDataOptions
insert_entry e [] = e ∷ []
insert_entry e (f ∷ fs) =
    let rest = insert_entry e fs in
    if le_bytes (pair_string e) (pair_string f) then e ∷ f ∷ fs else f ∷ rest

unfoldable pub sort_entries : CounterPartyDataOptions → CounterPartyDataOptions
unfolding insert_entry pair_string
sort_entries [] = []
sort_entries (e ∷ es) = insert_entry e (sort_entries es)

map-insert_entry :
    (e : Entry) (es : CounterPartyDataOptions)
    → map pair_string (insert_entry e es) ≡ insert_sorted (pair_string e) (map pair_string es)
unfolding insert_entry insert_sorted
map-insert_entry e [] = refl
map-insert_entry e (f ∷ fs) = ground (arith, map-insert_entry e fs)

pub map-sort_entries :
    (es : CounterPartyDataOptions)
    → map pair_string (sort_entries es) ≡ sort_strings (map pair_string es)
unfolding sort_entries sort_strings
map-sort_entries [] = refl
map-sort_entries (e ∷ es) =
    map-insert_entry e (sort_entries es) ∙ ap (insert_sorted (pair_string e)) (map-sort_entries es)

-- A sort keeps what holds of every entry, the keys distinct, and each key's value.
insert_entry-All :
    (P : Entry → Type 0) (e : Entry) (es : CounterPartyDataOptions)
    → P e
    → All P es
    → All P (insert_entry e es)
unfolding insert_entry
insert_entry-All P e [] h k = (h, tt)
insert_entry-All P e (f ∷ fs) h k =
    elim (le_bytes (pair_string e) (pair_string f))
      as (λ b. All P (if b then e ∷ f ∷ fs else f ∷ insert_entry e fs)) [
        | true ↦ (h, k)
        | false ↦ (k.0, insert_entry-All P e fs h k.1)
      ]

pub sort_entries-All :
    (P : Entry → Type 0) (es : CounterPartyDataOptions) → All P es → All P (sort_entries es)
unfolding sort_entries
sort_entries-All P [] h = tt
sort_entries-All P (e ∷ es) h =
    insert_entry-All P e (sort_entries es) h.0 (sort_entries-All P es h.1)

lookup-insert_entry :
    (k j : Bytes) (v : CounterPartyDataOption) (es : CounterPartyDataOptions)
    → lookup k es ≡ none
    → lookup j (insert_entry (k, v) es) ≡ (if eqb k j then some v else lookup j es)
unfolding insert_entry lookup
lookup-insert_entry k j v [] h = refl
lookup-insert_entry k j v ((i, w) ∷ es) h =
    ground (arith, eqb_iff k j, eqb_iff i k, eqb_iff i j, lookup-insert_entry k j v es)

lookup_step :
    (k j : Bytes) (v : CounterPartyDataOption) (es : CounterPartyDataOptions)
    → {o : Option CounterPartyDataOption} → o ≡ lookup k es
    → (if eqb j k then some v else o) ≡ lookup k ((j, v) ∷ es)
unfolding lookup
lookup_step k j v es e = rw e

pub lookup-sort_entries :
    (k : Bytes) (es : CounterPartyDataOptions)
    → NodupKeys es
    → lookup k (sort_entries es) ≡ lookup k es
unfolding sort_entries
lookup-sort_entries k [] h = refl
lookup-sort_entries k ((j, v) ∷ es) h =
    lookup-insert_entry j k v (sort_entries es) (lookup-sort_entries j es h.1 ∙ h.0)
    ∙ lookup_step k j v es (lookup-sort_entries k es h.1)

insert_entry-NodupKeys :
    (k : Bytes) (v : CounterPartyDataOption) (es : CounterPartyDataOptions)
    → lookup k es ≡ none
    → NodupKeys es
    → NodupKeys (insert_entry (k, v) es)
unfolding insert_entry lookup
insert_entry-NodupKeys k v [] h n = (refl, tt)
insert_entry-NodupKeys k v ((i, w) ∷ es) h n =
    ground
      (arith, eqb_iff i k, eqb_iff k i, lookup-insert_entry k i v es, insert_entry-NodupKeys k v es)

pub sort_entries-NodupKeys :
    (es : CounterPartyDataOptions) → NodupKeys es → NodupKeys (sort_entries es)
unfolding sort_entries
sort_entries-NodupKeys [] h = tt
sort_entries-NodupKeys ((k, v) ∷ es) h =
    insert_entry-NodupKeys k v (sort_entries es) (lookup-sort_entries k es h.1 ∙ h.0)
      (sort_entries-NodupKeys es h.1)

insert_entry-ne-nil :
    (e : Entry) (es : CounterPartyDataOptions) → map pair_string (insert_entry e es) ≢ []
unfolding insert_entry
insert_entry-ne-nil e [] = ground arith
insert_entry-ne-nil e (f ∷ fs) = ground arith

pub sorted-ne-nil :
    (es : CounterPartyDataOptions) → es ≢ [] → map pair_string (sort_entries es) ≢ []
unfolding sort_entries
sorted-ne-nil [] h = absurd (h refl)
sorted-ne-nil (e ∷ es) h = insert_entry-ne-nil e (sort_entries es)
