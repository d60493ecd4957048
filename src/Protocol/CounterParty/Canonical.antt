-- ===== src/Protocol/CounterParty/Canonical.antt =====
-- The bytes of the options (uma/protocol/counter_party_data.go) stand for the map, whatever order its
-- entries are in.
use mathlib.Core.List.{Perm}
use mathlib.Core.List.Perm
use mathlib.Core.Path.{subst}
use mathlib.Core.List
use mathlib.Core.Quot
use mathlib.Core.Quot.{Quot, Quot-set}
use native.Mathlib.Nat.{ℕ_set}
use uma_go_sdk.Base.{
  none, some, [], ◌∷◌, ◌≡◌, ◌≢◌, refl, sym, ap, ◌∙◌, ◌↔◌, arith, Bytes, eqb, eqb_iff, eqb_refl, All,
  Bool-cases, inl, inr,
}
use uma_go_sdk.Go.Result.{ok_injective}
use uma_go_sdk.Go.Map.{Map, lookup, delete, NodupKeys, lookup-delete, delete-NodupKeys}
use uma_go_sdk.Protocol.CounterParty.{CounterPartyDataOptions, marshal_bytes, unmarshal_bytes}
use uma_go_sdk.Protocol.CounterParty.Sorted.{IsPlain, sort_entries}
use uma_go_sdk.Protocol.CounterParty.RoundTrip.{options-unmarshal-marshal}
use uma_go_sdk.Protocol.CounterParty.Order.{marshal-perm}

module _ {V : Type 0} where
  -- Two maps have the same value, or none, under each key.
  abbrev pub SameMap : Map V → Map V → Type 0
  SameMap c d = (k : Bytes) → lookup k c ≡ lookup k d

  delete-none : (k : Bytes) (m : Map V) → lookup k m ≡ none → delete k m ≡ m
  unfolding lookup delete
  delete-none k [] h = refl
  delete-none k ((j, w) ∷ m) h = ground (arith, delete-none k m)

  delete-Perm :
      (k : Bytes) (v : V) (m : Map V)
      → NodupKeys m
      → lookup k m ≡ some v
      → Perm ((k, v) ∷ delete k m) m
  unfolding lookup delete
  delete-Perm k v [] n h = cc
  delete-Perm k v ((j, w) ∷ m) n h = elim (Bool-cases (eqb j k)) [
    | inl e ↦
        let same : (j, w) ∷ m ≡ (k, v) ∷ delete k ((j, w) ∷ m) =
          ground (arith, delete-none k m, eqb_iff j k) in
        subst (λ l. Perm l ((j, w) ∷ m)) same (Perm.refl _)
    | inr e ↦
        let found : lookup k m ≡ some v = ground arith in
        rw e (Perm.trans (Perm.swap _ _ _) (Perm.cons _ (delete-Perm k v m n.1 found)))
  ]

  SameMap-delete :
      (k : Bytes) (v : V) (c d : Map V)
      → lookup k c ≡ none
      → SameMap ((k, v) ∷ c) d
      → SameMap c (delete k d)
  unfolding lookup
  SameMap-delete k v c d new same j = ground (arith, same j, lookup-delete k j d, eqb_iff k j)

  SameMap-Perm : (c d : Map V) → NodupKeys c → NodupKeys d → SameMap c d → Perm c d
  unfolding lookup
  SameMap-Perm [] [] n n' same = Perm.nil
  SameMap-Perm [] ((k, v) ∷ d) n n' same = ground (arith, same k, eqb_refl k)
  SameMap-Perm ((k, v) ∷ c) d n n' same =
      let found : lookup k d ≡ some v = ground (arith, same k, eqb_refl k) in
      Perm.trans
        (Perm.cons (k, v)
          (SameMap-Perm c (delete k d) n.1 (delete-NodupKeys k d n')
            (SameMap-delete k v c d n.0 same)))
        (delete-Perm k v d n' found)

-- Options that can be written: not empty, with distinct keys that hold neither a colon nor a comma.
abbrev pub IsWritten : CounterPartyDataOptions → Type 0
IsWritten c = (c ≢ []) × NodupKeys c × All IsPlain c

-- Two maps of options, neither empty, with distinct keys that hold neither a colon nor a comma, have
-- the same bytes exactly when they have the same option, or none, under each key.
pub same_bytes_iff :
    (c d : CounterPartyDataOptions)
    → IsWritten c
    → IsWritten d
    → (marshal_bytes c ≡ marshal_bytes d) ↔ SameMap c d
same_bytes_iff c d (ne, n, plain) (ne', n', plain') = (
  λ e k.
      let (read, looks) = options-unmarshal-marshal c ne n plain in
      let (read', looks') = options-unmarshal-marshal d ne' n' plain' in
      let same : sort_entries c ≡ sort_entries d =
        ok_injective (sym read ∙ ap unmarshal_bytes e ∙ read') in
      sym (looks k) ∙ ap (lookup k) same ∙ looks' k,
  λ same. marshal-perm c d (SameMap-Perm c d n n' same),
)

Bytes-set : IsSet Bytes
Bytes-set = List.is_set ℕ_set

-- A map of options, whatever order its entries are in.
abbrev pub OptionsMap : Type 0
OptionsMap = Quot {α = (c : CounterPartyDataOptions) × IsWritten c} (λ c d. SameMap c.0 d.0)

pub map_bytes : OptionsMap → Bytes
map_bytes = Quot.lift Bytes-set (λ c. marshal_bytes c.0) (λ c d. (same_bytes_iff c.0 d.0 c.1 d.1).1)

-- The bytes determine the map.
pub map_bytes-injective : (m n : OptionsMap) → map_bytes m ≡ map_bytes n → m ≡ n
unfolding map_bytes
map_bytes-injective =
    Quot.ind (λ m. hlevel (Quot-set))
      λ c.
        Quot.ind (λ n. hlevel (Quot-set))
          λ d. λ e. Quot.sound ((same_bytes_iff c.0 d.0 c.1 d.1).0 e)
