-- ===== src/Go/Url.antt =====
-- `net/url`: a URL with its raw query held as the `url.Values` that it stands for, in the order of
-- `Add`. Escaping, which `Encode` adds and `Query` takes away, is left out.
use uma_go_sdk.Base.{[], Option, none, some, Bytes}
use uma_go_sdk.Go.Map.{Map, lookup}

pub record Url : Type 0 where
  pub scheme : Bytes
  pub host : Bytes
  pub path : Bytes
  pub query : Map Bytes

unfoldable pub or_empty : Option Bytes → Bytes
or_empty none = []
or_empty (some s) = s

-- query.Get(key): the first value of the key, or the empty string.
unfoldable pub get : Map Bytes → Bytes → Bytes
unfolding or_empty
get query key = or_empty (lookup key query)
