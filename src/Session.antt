-- ===== src/Session.antt =====
-- finn-session: the broker (src/session/main.cpp) and its client (src/session/client.cpp).
pub mod Environment
pub mod Broker
pub mod Client
pub mod Command
pub mod Socket
pub mod Server
pub mod Protocol
pub mod Launching
pub mod Stopping
