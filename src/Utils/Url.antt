-- ===== src/Utils/Url.antt =====
-- uma/utils/url_utils.go.
use uma_go_sdk.Base.{List, [], ◌∷◌, Bool, ◌||◌, Bytes, codes, eqb, refl, ◌≡◌, true, false}
use uma_go_sdk.Go.Strings.{split}

-- The first and the last element of a slice that is not empty: `strings.Split` returns no other.
first : List Bytes → Bytes
first [] = []
first (p ∷ ps) = p

last : List Bytes → Bytes
last [] = []
last (p ∷ []) = p
last (p ∷ q ∷ ps) = last (q ∷ ps)

unfoldable pub is_domain_localhost : Bytes → Bool
unfolding first last
is_domain_localhost domain =
    let domain_without_port = first (split b':' domain) in
    let tld = last (split b'.' domain_without_port) in
    eqb domain_without_port (codes "localhost")
    || eqb domain_without_port (codes "127.0.0.1")
    || eqb tld (codes "local")
    || eqb tld (codes "internal")

localhost_tests :
    (is_domain_localhost (codes "localhost:8080") ≡ true)
    × (is_domain_localhost (codes "vasp2.com") ≡ false)
    × (is_domain_localhost (codes "a.b.internal:1") ≡ true)
unfolding is_domain_localhost split eqb
localhost_tests = (refl, refl, refl)
