-- ===== src/Session.antt =====
-- lib/nmxp.c: the sessions of a client with a NaqsServer or a DataServer.
mod Tests
pub mod Ready
pub mod Lists
pub mod Available
pub mod Login
pub mod Dialog
pub mod Metas
