-- ===== src/Channel.antt =====
-- src/util/async_channel.rs and src/util/oneshot.rs: what passes values between tasks. A waker is a
-- number; what an operation wakes is part of its result. The mutex around the state makes each
-- operation one step.
pub mod Queue
pub mod Oneshot
