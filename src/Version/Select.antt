-- ===== src/Version/Select.antt =====
-- The negotiation of a version (uma/version.go).
use uma_go_sdk.Base.{
  ◌≡◌, refl, ap, ◌∙◌, ◌⊎◌, inl, inr, Bool, true, false, ◌||◌, Option, none, some, List, [], ◌∷◌,
  arith, Bytes, codes, if◌then◌else◌, Bool-cases,
}
use uma_go_sdk.Base.Int.{ℤ, pos, ◌≤ℤ◌, ◌<ℤ◌, ltb_ℤ, eqb_ℤ, eqb_ℤ_iff}
use uma_go_sdk.Go.Result.{ok}
use uma_go_sdk.Go.Strconv.{format_int, format_uint, parse_int, parse_uint}
use uma_go_sdk.Go.Scan.{scan_int, scan_byte}
use uma_go_sdk.Version.{
  ParsedVersion, parse_version, version_string, uma_protocol_version, contains, supports,
  get_highest_supported_version_for_major_version, select_loop, select_highest_supported_version,
  print_version, raise_version, is_higher, select_lower_version,
}
use uma_go_sdk.Version.Parse.{supports_iff}

abbrev v1_0 : ParsedVersion
v1_0 = record { major = pos 1; minor = pos 0 }

abbrev v0_3 : ParsedVersion
v0_3 = record { major = pos 0; minor = pos 3 }

highest_1 : get_highest_supported_version_for_major_version (pos 1) ≡ some v1_0
unfolding get_highest_supported_version_for_major_version uma_protocol_version parse_version
    scan_int scan_byte parse_int parse_uint format_int format_uint
highest_1 = refl

highest_0 : get_highest_supported_version_for_major_version (pos 0) ≡ some v0_3
unfolding get_highest_supported_version_for_major_version uma_protocol_version parse_version
    scan_int scan_byte parse_int parse_uint format_int format_uint
highest_0 = refl

-- The versions that the loop can hold.
best : Bool → Bool → Option ParsedVersion
best true b = some v1_0
best false true = some v0_3
best false false = none

round_lem :
    (a b : Bool) (other : ℤ)
    → (if supports other then raise_version (best a b) other else best a b)
      ≡ best (a || eqb_ℤ other (pos 1)) (b || eqb_ℤ other (pos 0))
unfolding raise_version best
round_lem a b other = ground (
  arith,
  supports_iff other,
  highest_1,
  highest_0,
  eqb_ℤ_iff other (pos 1),
  eqb_ℤ_iff other (pos 0),
)

loop_lem :
    (a b : Bool) (others : List ℤ)
    → select_loop (best a b) others
      ≡ best (a || contains others (pos 1)) (b || contains others (pos 0))
unfolding select_loop contains
loop_lem a b [] = ground arith
loop_lem a b (other ∷ others) =
    ap (λ highest. select_loop highest others) (round_lem a b other)
    ∙ loop_lem (a || eqb_ℤ other (pos 1)) (b || eqb_ℤ other (pos 0)) others
    ∙ ground arith

print-best :
    (a b : Bool)
    → print_version (best a b)
      ≡ (if a then some (codes "1.0") else if b then some (codes "0.3") else none)
unfolding print_version best version_string format_int
print-best true b = refl
print-best false true = refl
print-best false false = refl

-- The selected version is 1.0 where the other party supports major version 1, else 0.3 where it
-- supports major version 0, and else there is none, in whatever order its versions come.
pub select_highest_lem :
    (others : List ℤ)
    → select_highest_supported_version others ≡ (
        if contains others (pos 1)
        then some (codes "1.0")
        else if contains others (pos 0)
        then some (codes "0.3")
        else none)
unfolding select_highest_supported_version best
select_highest_lem others =
    ap print_version (loop_lem false false others)
    ∙ print-best (contains others (pos 1)) (contains others (pos 0))

abbrev pub IsLower : ParsedVersion → ParsedVersion → Type 0
IsLower v w = (v.major <ℤ w.major) ⊎ ((v.major ≡ w.major) × (v.minor ≤ℤ w.minor))

higher-IsLower : (v w : ParsedVersion) → is_higher v w ≡ true → IsLower w v
unfolding is_higher
higher-IsLower v w e = elim (Bool-cases (ltb_ℤ w.major v.major)) [
  | inl lower ↦ inl (ground arith)
  | inr same ↦ inr (ground arith)
]

not_higher-IsLower : (v w : ParsedVersion) → is_higher v w ≡ false → IsLower v w
unfolding is_higher
not_higher-IsLower v w e = elim (Bool-cases (ltb_ℤ v.major w.major)) [
  | inl lower ↦ inl (ground arith)
  | inr same ↦ inr (ground arith)
]

-- The lower of two versions is one of the two texts, and it parses to a version that is not higher
-- than either.
pub select_lower_lem :
    (s t : Bytes) (v w : ParsedVersion)
    → parse_version s ≡ ok v
    → parse_version t ≡ ok w
    → (u : ParsedVersion) × (r : Bytes) × (select_lower_version s t ≡ ok r)
      × ((r ≡ s) ⊎ (r ≡ t))
      × (parse_version r ≡ ok u)
      × IsLower u v
      × IsLower u w
unfolding select_lower_version
select_lower_lem s t v w p q = elim (Bool-cases (is_higher v w)) [
  | inl e ↦ (w, t, simp (p, q, e), inr refl, q, higher-IsLower v w e, inr (ground arith))
  | inr e ↦ (v, s, simp (p, q, e), inl refl, p, inr (ground arith), not_higher-IsLower v w e)
]
