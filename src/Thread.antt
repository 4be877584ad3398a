-- ===== src/Thread.antt =====
-- src/thread.rs: the mutable state of one ACP session, as far as the modelled operations read or
-- write it, and what the session's client has been sent.
--
-- An operation on `&mut ThreadInner` returns the new record. `sent` lists the session updates that
-- `inner.client` was given, oldest first; awaiting the client changes nothing else. A point of
-- time is a number of milliseconds, and `now` is an argument of the operations that read the clock.
pub mod State
pub mod Turn
pub mod Reconnect
