-- ===== src/Tests.antt =====
-- Concrete inputs: each theorem that has hypotheses is applied where they hold.
mod MemoryStore
mod Accessory
mod Codecs
mod Controllers
mod Sessions
mod Pairings
mod Flash
mod Network
mod Transport
mod PairVerify
mod PairSetup
mod Restarts
mod Characteristics
mod Database
