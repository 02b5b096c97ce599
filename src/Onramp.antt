-- ===== src/Onramp.antt =====
-- The cross-chain onramp of backend/services/api/src/onramp: intents (service.ts), CCTP messages
-- (message.ts), the settlement call (relayer.ts) and the poller (poller.ts).
pub mod Status
pub mod Intents
pub mod Message
pub mod Relayer
pub mod Poller
mod Tests
