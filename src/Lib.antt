-- ===== src/Lib.antt =====
-- A model of uma-go-sdk, the Go library of the UMA protocol, which two payment providers (VASPs) speak:
-- the sender's VASP asks the receiver's about an address, and the two exchange signed messages.
--
-- The parts and how they interact. A message is signed over a text payload (uma/uma.go), it is checked
-- against the public keys of the other VASP (uma/protocol/pub_key_response.go, uma/utils/cert_utils.go),
-- which a cache keeps (uma/public_key_cache.go), and its nonce goes to a nonce cache that refuses replays
-- (uma/nonce_cache.go). The two agree on a version (uma/version.go). Invoices have a type-length-value
-- form (uma/utils/tlv_utils.go) and a bech32 text (uma/protocol/invoice.go). A payment is one exchange: the
-- sender's pay request (uma/protocol/pay_request.go, payer_data.go), for which the receiver makes an
-- invoice, and the receiver's response (payreq_response.go, payee_data.go), both signed and sent as JSON.
--
-- The files.
--   Base, Base/*: numbers, lists, bytes and 64-bit integers; no code of the repository.
--   Go, Go/*: what the code uses of Go's standard library (strings, strconv, sort, time, hex, maps, Sscanf)
--     and the results of Go functions: a value, an error, or a panic. Go/Json, Go/Json/*: encoding/json over
--     values in place of text, with structs as lists of fields.
--   Crypto: the cryptographic libraries as a record of parameters, and what is relied on of them.
--   NonceCache, NonceCache/*: uma/nonce_cache.go. CheckAndSaveNonce and PurgeNoncesOlderThan take the cache
--     and give it back; Interface has the Go interface as a record of operations, which the checks of
--     signed messages take as an instance; Interleaving has the methods as atomic steps of concurrent
--     callers, Fairness is about the schedules of these, and Linear compares them with calls one by one.
--   PublicKeyCache, PublicKeyCache/*: uma/public_key_cache.go, with the time as an argument, and its
--     interface, which FetchPublicKeyForVasp takes; History is about a cache after a list of changes.
--   Version, Version/*: uma/version.go.
--   Utils/Tlv, Utils/Tlv/*: uma/utils/tlv_utils.go. A struct is what reflect shows of it, the list of its
--     fields with tag and value; `handle` of MarshalTLV is `handle`, that of UnmarshalTLV is `set_value`.
--   Utils/Url: uma/utils/url_utils.go. Utils/Certs: uma/utils/cert_utils.go.
--   Protocol/KycStatus, CounterParty, Invoice, PubKeyResponse, LnurlpRequest, LnurlpResponse,
--     PostTransactionCallback, Currency: the files of those names under uma/protocol (CounterParty is
--     counter_party_data.go; LnurlpRequest and LnurlpResponse are lnurl_request.go and lnurl_response.go).
--   Protocol/PayRequest, PayReqResponse, PayerData, PayeeData: the files pay_request.go, payreq_response.go,
--     payer_data.go and payee_data.go there. The modules Json below a message have its MarshalJSON and
--     UnmarshalJSON, PayRequest/Query and the modules below it its form as the parameters of a URL.
--   Uma/Signing, Lnurlp, LnurlpAnswer, Verify, InvoiceSigning: the functions of uma/uma.go on keys, requests,
--     answers, checks and invoices. Random numbers, the clock and the new UUID are arguments.
--   Uma/SignedMessage has the five kinds of signed messages in one type, with what their checks have in
--     common, as Uma/Authentic and Uma/ReplayLaws need it.
--   Uma/PayRequest, PayResponse: GetUmaPayRequestWithInvoice and GetPayReqResponse with their helpers and
--     checks, PayResponse/Amounts is about the conversion of amounts. Uma/Exchange puts the two together,
--     and Uma/Session these with the query and its answer. Uma/FetchKey: FetchPublicKeyForVasp.
--
-- Names are those of the Go code in lower case with underscores. Strings and byte slices are lists of
-- numbers, a nil pointer is `none`, following it is `deref`, which panics, and an error is the constructor
-- named for its text. Integers of 64 bits wrap around where the code computes with them.
--
-- Fuel. `read_entries` and `read_blocks` take the length of their input, and each round takes something
-- off it, so that is enough. Printing a number takes one more than the number.
--
-- Parameters. The bech32 library (its decoder undoes its encoder for the human readable part `uma`), and the record of Crypto: hash, signing,
-- verification (a signature of a key pair verifies), encryption, PEM (a block that is encoded is decoded) and
-- ASN.1. Of JSON, the text form (`read` and `write` of JsonLib) and float64 (Float64: a number that is written
-- is read back, an integer of at most 53 bits is written as an integer, and products and quotients of
-- such integers are exact). The HTTP client and the invoice creator are functions.
--
-- Not modelled. Of encoding/json: the text of a document, keys that match a field but for their case, keys
-- that a document holds twice, and the order of a map's keys. Escaping in net/url, so that a URL holds the
-- values that its query stands for; the difference between a nil and an empty map that is read or sent (a
-- nil map that a caller gives and that is written to panics) and between a nil and an empty slice of UTXOs
-- of a callback; what GetPayReqResponse has written to the caller's
-- payee data when it returns an error; the monotonic clock reading of time.Now.
pub mod Base
pub mod Go
pub mod NonceCache
pub mod Utils
pub mod Protocol
pub mod PublicKeyCache
pub mod Crypto
pub mod Version
pub mod Uma
