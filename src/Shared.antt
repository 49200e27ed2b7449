-- ===== src/Shared.antt =====
-- packages/shared/src: what the api and the worker share.
pub mod Errors
pub mod Failures
pub mod Replies
pub mod Events
