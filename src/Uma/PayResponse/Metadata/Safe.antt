-- ===== src/Uma/PayResponse/Metadata/Safe.antt =====
-- Metadata that are read with no panic (addInvoiceUUIDToMetadata of uma/uma.go).
use uma_go_sdk.Base.{ℕ, ◌≢◌, Bytes}
use uma_go_sdk.Go.Result.{panic}
use uma_go_sdk.Go.Json.{
  Json, Items, Float64, null, boolean, number, text, array, object, string_pointer, no_items, item,
  to_interface_items,
}
use uma_go_sdk.Go.Json.Safe.{bind-ne-panic, ok-ne-panic, items-ne-panic}
use uma_go_sdk.Uma.PayResponse.Metadata.{decode_rows, decode_metadata}

module _ (float : Float64) (parses : (s : Bytes) → float.parse s ≢ panic)
    (prints : (bits : ℕ) → float.print bits ≢ panic) where
  pub rows-ne-panic : (rows : Items) → decode_rows float rows ≢ panic
  unfolding decode_rows
  rows-ne-panic no_items = ok-ne-panic no_items
  rows-ne-panic (item (array xs) rows) =
      bind-ne-panic (to_interface_items float xs) _ (items-ne-panic float parses prints xs)
        (λ row e.
          bind-ne-panic (decode_rows float rows) _ (rows-ne-panic rows)
            (λ rest e'. ok-ne-panic (item (array row) rest)))
  rows-ne-panic (item null rows) =
      bind-ne-panic (decode_rows float rows) _ (rows-ne-panic rows)
        (λ rest e. ok-ne-panic (item null rest))
  rows-ne-panic (item (boolean b) rows) = λ e. cc
  rows-ne-panic (item (number s) rows) = λ e. cc
  rows-ne-panic (item (text s) rows) = λ e. cc
  rows-ne-panic (item (object ms) rows) = λ e. cc
  rows-ne-panic (item (string_pointer p) rows) = λ e. cc

  pub metadata-ne-panic : (v : Json) → decode_metadata float v ≢ panic
  unfolding decode_metadata
  metadata-ne-panic (array rows) = rows-ne-panic rows
  metadata-ne-panic null = ok-ne-panic no_items
  metadata-ne-panic (boolean b) = λ e. cc
  metadata-ne-panic (number s) = λ e. cc
  metadata-ne-panic (text s) = λ e. cc
  metadata-ne-panic (object ms) = λ e. cc
  metadata-ne-panic (string_pointer p) = λ e. cc
