-- ===== src/Reconcile.antt =====
-- internal/reconcile: the passes that build the desired set of one tick.
-- The desired set, a map from (ticket, attempt), is the list of its entries.
pub mod Gates
pub mod Activation
pub mod Async
pub mod Health
pub mod Retire
pub mod Tick
pub mod Desired
pub mod Verbs
