-- ===== src/Store.antt =====
-- Package store (store/state.go, store/session.go, store/adapter.go): the domain types of a payment
-- session, the errors, and the interface that the storage backends implement.
pub mod State
pub mod Session
pub mod Error
pub mod Adapter
pub mod Safety
pub mod Expiry
