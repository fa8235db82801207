-- ===== src/Api.antt =====
-- The parts of src/andera/api that keep state.
pub mod EventBus
pub mod Registry
pub mod Finalizer
