-- ===== src/Protocol/CounterParty/Order.antt =====
-- The bytes of the options (uma/protocol/counter_party_data.go) do not depend on the order in which
-- `range` visits the map.
use mathlib.Core.List.{Perm}
use mathlib.Core.List.Perm
use uma_go_sdk.Base.{◌≡◌, ap, map}
use uma_go_sdk.Go.Strings.{join}
use uma_go_sdk.Go.Sort.{sort-perm}
use uma_go_sdk.Protocol.CounterParty.{CounterPartyDataOptions, pair_string, marshal_bytes}

-- Two orders of the same entries are written to the same bytes.
pub marshal-perm : (c d : CounterPartyDataOptions) → Perm c d → marshal_bytes c ≡ marshal_bytes d
unfolding marshal_bytes
marshal-perm c d p =
    ap (join b',') (sort-perm (map pair_string c) (map pair_string d) (Perm.map pair_string p))
