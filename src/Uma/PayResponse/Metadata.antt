-- ===== src/Uma/PayResponse/Metadata.antt =====
-- addInvoiceUUIDToMetadata of uma/uma.go: the metadata is JSON, a list of lists.
pub mod Safe
use uma_go_sdk.Base.{Option, none, some, Bytes, codes}
use uma_go_sdk.Go.Result.{Result, ok, err, ◌>>=◌, json_type_error}
use uma_go_sdk.Go.Json.{
  Json, Items, JsonLib, Float64, null, text, array, no_items, item, to_interface_items,
  marshal_items,
}

-- json.Unmarshal into [][]interface{}; a nil row is null.
unfoldable pub decode_rows : Float64 → Items → Result Items
decode_rows float no_items = ok no_items
decode_rows float (item (array xs) rows) = to_interface_items float xs >>= λ row.
    decode_rows float rows >>= λ rest. ok (item (array row) rest)
decode_rows float (item null rows) = decode_rows float rows >>= λ rest. ok (item null rest)
decode_rows float (item _ rows) = err json_type_error

unfoldable pub decode_metadata : Float64 → Json → Result Items
decode_metadata float (array rows) = decode_rows float rows
decode_metadata float null = ok no_items
decode_metadata float _ = err json_type_error

unfoldable pub append_item : Items → Json → Items
append_item no_items v = item v no_items
append_item (item w xs) v = item w (append_item xs v)

unfoldable pub invoice_row : Bytes → Json
invoice_row invoice_uuid =
    array (item (text (codes "text/uma-invoice")) (item (text invoice_uuid) no_items))

unfoldable pub add_invoice_uuid_to_metadata : JsonLib → Bytes → Bytes → Result Bytes
add_invoice_uuid_to_metadata lib metadata invoice_uuid = do
  document ← lib.read metadata
  rows ← decode_metadata lib.float document
  lib.write (array (marshal_items (append_item rows (invoice_row invoice_uuid))))

-- The UUID is added when there is one.
unfoldable pub optional_invoice_uuid : JsonLib → Bytes → Option Bytes → Result Bytes
optional_invoice_uuid lib metadata none = ok metadata
optional_invoice_uuid lib metadata (some invoice_uuid) =
    add_invoice_uuid_to_metadata lib metadata invoice_uuid
