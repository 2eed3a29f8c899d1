-- ===== src/Server.antt =====
-- server/src: the store, the handlers of each kind of request, and the dispatch between them.
pub mod Hex
pub mod Storage
pub mod Persist
pub mod World
pub mod AuthHandler
pub mod ContactHandler
pub mod ChatHandler
pub mod Dispatch
pub mod Soundness
pub mod Effects
pub mod Safety
pub mod Answering
pub mod Replies
pub mod Access
pub mod Delivery
pub mod ConvId
pub mod Process
pub mod Archive
pub mod Authors
pub mod Chunks
pub mod Runs
pub mod Restart
pub mod Damage
