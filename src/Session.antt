-- ===== src/Session.antt =====
-- Package session (session/state.go, session/phone.go, session/token.go, session/ttl.go,
-- session/manager.go): the state machine, phone normalisation and the session manager.
pub mod Machine
pub mod Phone
pub mod Token
pub mod Manager
pub mod Trace
