-- ===== src/Protocol.antt =====
-- uma/protocol: the messages of the protocol.
pub mod PubKeyResponse
pub mod KycStatus
pub mod CounterParty
pub mod Invoice
pub mod Currency
pub mod LnurlpRequest
pub mod LnurlpResponse
pub mod PostTransactionCallback
pub mod PayerData
pub mod PayeeData
pub mod PayRequest
pub mod PayReqResponse
