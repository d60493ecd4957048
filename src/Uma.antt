-- ===== src/Uma.antt =====
-- uma/uma.go: the requests and the answers of the protocol, their signatures and their checks.
pub mod Signing
pub mod Lnurlp
pub mod Verify
pub mod InvoiceSigning
pub mod SigningLaws
pub mod SignedMessage
pub mod Authentic
pub mod ReplayLaws
pub mod EndToEnd
pub mod LnurlpAnswer
pub mod Payloads
mod Toy
pub mod ToyJson
mod Tests
mod AnswerTests
mod JsonTests
mod MessageTests
mod ResponseTests
mod SessionTests
mod ReplayTests
mod FetchTests
mod QueryTests
mod AmountTests
pub mod PayRequest
pub mod FetchKey
pub mod PayResponse
pub mod Exchange
pub mod Session
