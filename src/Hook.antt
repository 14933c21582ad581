-- ===== src/Hook.antt =====
-- corlib/hook.cpp: the calls that replace those of the C library. What the original calls return and
-- how a waiting fiber comes back are arguments.
pub mod Io
pub mod Wait
pub mod Wake
pub mod Timeout
pub mod Attempts
pub mod Files
pub mod Sleep
pub mod Close
pub mod Init
pub mod Control
pub mod UserMode
pub mod Reuse
pub mod Tests
pub mod WaitTests
pub mod ModeTests
