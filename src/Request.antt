-- ===== src/Request.antt =====
-- request/: the request lifecycle of one endpoint.
pub mod Kind
pub mod Sequencer
pub mod Envelope
pub mod Chained
pub mod Ticket
pub mod Dispatcher
