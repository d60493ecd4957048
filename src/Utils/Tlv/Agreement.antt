-- ===== src/Utils/Tlv/Agreement.antt =====
-- The map that UnmarshalTLV of uma/utils/tlv_utils.go reads from a written struct.
use mathlib.Core.Path.{subst}
use uma_go_sdk.Base.{
  ℕ, ◌≤◌, ◌≡◌, ◌≢◌, refl, Option, none, some, List, ◌∷◌, arith, Bytes, length, All, sym, ap, ◌∙◌,
}
use uma_go_sdk.Go.Result.{Result, ok}
use uma_go_sdk.Utils.Tlv.{
  Value, Fields, nil_pointer, end, field, tag_byte, handle, Contents, store, nothing, read_entries,
}
use uma_go_sdk.Utils.Tlv.Entries.{Entry, flat, store_all, IsShort, read-flat}
use uma_go_sdk.Utils.Tlv.Encodable.{
  Absent, IsEncodable, no_fields, present, missing, emitted, emitted_field, emitted_missing,
  handle-some, IsShortContent, emit,
}

-- The map has no content for any field.
abbrev pub AllMissing : Contents → Fields → Type 0
AllMissing m end = Unit
AllMissing m (field tag v fs) =
    ((t : ℕ) → tag_byte tag ≡ ok (some t) → m t ≡ none) × AllMissing m fs

-- The map has the content of each field.
abbrev pub Agrees : Contents → Fields → Type 0
Agrees m end = Unit
Agrees m (field tag v fs) =
    ((t : ℕ) (s : Option Bytes) → tag_byte tag ≡ ok (some t) → handle v ≡ ok s → m t ≡ s)
    × Agrees m fs

store_ne : (m : Contents) (t : ℕ) (s : Bytes) (u : ℕ) → t ≢ u → store m t s u ≡ m u
store_ne m t s u h = ground arith

store_self : (m : Contents) (t : ℕ) (s : Bytes) → store m t s t ≡ some s
store_self m t s = ground arith

AllMissing-store :
    (m : Contents) (t : ℕ) (s : Bytes) (fs : Fields)
    → AllMissing m fs
    → Absent t fs
    → AllMissing (store m t s) fs
AllMissing-store m t s end h a = tt
AllMissing-store m t s (field tag v fs) h a = (
  λ u e. store_ne m t s u (λ p. a.0 (e ∙ ap (λ k. ok (some k)) (sym p))) ∙ h.0 u e,
  AllMissing-store m t s fs h.1 a.1,
)

store_all-emit :
    (t : ℕ) (r : Result (Option ℕ)) (c : Result (Option Bytes)) (es : List Entry) (m : Contents)
    → r ≢ ok (some t)
    → ((m' : Contents) → store_all m' es t ≡ m' t)
    → store_all m (emit r c es) t ≡ m t
unfolding emitted store_all
store_all-emit t (ok (some u)) (ok (some s)) es m ne h =
    h (store m u s) ∙ store_ne m u s t (λ p. ne (ap (λ k. ok (some k)) p))
store_all-emit t _ _ es m ne h = h m

store_all-Absent :
    (m : Contents) (t : ℕ) (fs : Fields) → Absent t fs → store_all m (emitted fs) t ≡ m t
unfolding emitted store_all
store_all-Absent m t end a = refl
store_all-Absent m t (field tag v fs) a =
    store_all-emit t (tag_byte tag) (handle v) (emitted fs) m a.0
      (λ m'. store_all-Absent m' t fs a.1)

pub AllMissing-nothing : (fs : Fields) → AllMissing nothing fs
AllMissing-nothing end = tt
AllMissing-nothing (field tag v fs) = (λ t e. refl, AllMissing-nothing fs)

short_content :
    (r : Result (Option Bytes)) (s : Bytes) → IsShortContent r → r ≡ ok (some s) → length s ≤ 255
short_content r s h e = rw e at h

IsShort-emitted : (fs : Fields) → IsEncodable fs → All IsShort (emitted fs)
IsShort-emitted _ no_fields = unfold emitted in tt
IsShort-emitted _ (present {tag = tag} {v = v} {fs = fs} t e a short h k) =
    let (s, hs) = handle-some v h in
    rw (emitted_field tag v fs t s e hs) (short_content (handle v) s short hs, IsShort-emitted fs k)
IsShort-emitted _ (missing {tag = tag} {z = z} {fs = fs} t e a k) =
    rw (emitted_missing tag z fs t e) (IsShort-emitted fs k)

-- The content of the first field stays, since no other field has its tag.
first_content :
    (tag : Bytes) (fs : Fields) (t u : ℕ) (m : Contents) (b c : Option Bytes)
    → tag_byte tag ≡ ok (some t)
    → tag_byte tag ≡ ok (some u)
    → Absent t fs
    → m t ≡ b
    → b ≡ c
    → store_all m (emitted fs) u ≡ c
first_content tag fs t u m b c e e' a h k = cc (store_all-Absent m t fs a)

present-Agrees :
    (tag : Bytes) (v : Value) (fs : Fields) (t : ℕ) (s : Bytes) (m : Contents)
    → ((u : ℕ) (c : Option Bytes)
        → tag_byte tag ≡ ok (some u)
        → handle v ≡ ok c
        → store_all (store m t s) (emitted fs) u ≡ c)
    → Agrees (store_all (store m t s) (emitted fs)) fs
    → Agrees (store_all m ((t, s) ∷ emitted fs)) (field tag v fs)
unfolding store_all
present-Agrees tag v fs t s m h k = (h, k)

nil_content : (z : Value) (c : Option Bytes) → handle (nil_pointer z) ≡ ok c → none ≡ c
unfolding handle
nil_content z c h = cc

pub Agrees-emitted :
    (fs : Fields) (m : Contents)
    → IsEncodable fs
    → AllMissing m fs
    → Agrees (store_all m (emitted fs)) fs
Agrees-emitted _ m no_fields k = tt
Agrees-emitted _ m (present {tag = tag} {v = v} {fs = fs} t e a short h k) n =
    let (s, hs) = handle-some v h in
    subst (λ es. Agrees (store_all m es) (field tag v fs)) (sym (emitted_field tag v fs t s e hs))
      (present-Agrees tag v fs t s m
        (λ u c eu hc.
          first_content tag fs t u (store m t s) (some s) c e eu a (store_self m t s) (cc))
        (Agrees-emitted fs (store m t s) k (AllMissing-store m t s fs n.1 a)))
Agrees-emitted _ m (missing {tag = tag} {z = z} {fs = fs} t e a k) n =
    subst (λ es. Agrees (store_all m es) (field tag (nil_pointer z) fs))
      (sym (emitted_missing tag z fs t e))
      (
        λ u c eu hc. first_content tag fs t u m none c e eu a (n.0 t e) (nil_content z c hc),
        Agrees-emitted fs m k n.1,
      )

pub read_back :
    (fs : Fields) (s : Bytes)
    → IsEncodable fs
    → s ≡ flat (emitted fs)
    → read_entries (length s) s nothing ≡ ok (store_all nothing (emitted fs))
read_back fs s h e = rw e (
    read-flat (length (flat (emitted fs))) (emitted fs) nothing (omega arith)
      (IsShort-emitted fs h))
