-- ===== src/Go/Json/Safe.antt =====
-- Chains of calls that do not panic, and values that are read into an `interface{}` with no panic.
use uma_go_sdk.Base.{ℕ, Bool, true, false, ◌≡◌, ◌≢◌, refl, Bytes}
use uma_go_sdk.Go.Result.{Error, Result, ok, err, panic, ◌>>=◌, guard}
use uma_go_sdk.Go.Json.{
  Json, Items, Members, Float64, null, boolean, number, text, array, object, string_pointer,
  no_items, item, no_members, member, to_interface, to_interface_items, to_interface_members,
}

pub bind-ne-panic {ℓ κ} :
    {A : Type ℓ} {B : Type κ} (call : Result A) (next : A → Result B)
    → call ≢ panic
    → ((a : A) → call ≡ ok a → next a ≢ panic)
    → (call >>= next) ≢ panic
bind-ne-panic panic next h k = absurd (h refl)
bind-ne-panic (err problem) next h k = λ e. cc
bind-ne-panic (ok a) next h k = k a refl

pub guard-ne-panic : (b : Bool) (problem : Error) → guard b problem ≢ panic
guard-ne-panic true problem = λ e. cc
guard-ne-panic false problem = λ e. cc

pub ok-ne-panic {ℓ} : {A : Type ℓ} (a : A) → ok a ≢ panic
ok-ne-panic a = λ e. cc

module _ (float : Float64) (parses : (s : Bytes) → float.parse s ≢ panic)
    (prints : (bits : ℕ) → float.print bits ≢ panic) where
  mutual
    unfolding to_interface

    pub value-ne-panic : (v : Json) → to_interface float v ≢ panic
    value-ne-panic (number s) =
        bind-ne-panic (float.parse s) _ (parses s)
          (λ f e. bind-ne-panic (float.print f) _ (prints f) (λ t e'. ok-ne-panic (number t)))
    value-ne-panic (array xs) =
        bind-ne-panic (to_interface_items float xs) _ (items-ne-panic xs)
          (λ ys e. ok-ne-panic (array ys))
    value-ne-panic (object ms) =
        bind-ne-panic (to_interface_members float ms) _ (members-ne-panic ms)
          (λ ns e. ok-ne-panic (object ns))
    value-ne-panic null = ok-ne-panic null
    value-ne-panic (boolean b) = ok-ne-panic (boolean b)
    value-ne-panic (text s) = ok-ne-panic (text s)
    value-ne-panic (string_pointer p) = ok-ne-panic (string_pointer p)

    pub items-ne-panic : (xs : Items) → to_interface_items float xs ≢ panic
    items-ne-panic no_items = ok-ne-panic no_items
    items-ne-panic (item v xs) = bind-ne-panic (to_interface float v) _ (value-ne-panic v) (λ w e.
        bind-ne-panic (to_interface_items float xs) _ (items-ne-panic xs)
          (λ ys e'. ok-ne-panic (item w ys)))

    pub members-ne-panic : (ms : Members) → to_interface_members float ms ≢ panic
    members-ne-panic no_members = ok-ne-panic no_members
    members-ne-panic (member k v ms) =
        bind-ne-panic (to_interface float v) _ (value-ne-panic v) (λ w e.
          bind-ne-panic (to_interface_members float ms) _ (members-ne-panic ms)
            (λ ns e'. ok-ne-panic (member k w ns)))
