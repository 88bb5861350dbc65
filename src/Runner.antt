-- ===== src/Runner.antt =====
-- crates/e2etest/src/{task,test,group,run,lib}.rs: running a tree of groups and tests.
pub mod Runtime
pub mod Task
pub mod Test
pub mod Steps
pub mod Pool
pub mod Group
pub mod Run
pub mod Accounts
pub mod Concurrent
pub mod Interleaving
pub mod Balance
pub mod Single
pub mod Closing
pub mod Unfiltered
pub mod Recording
pub mod Parts
pub mod Filtered
pub mod Complete
pub mod Configured
pub mod Panic
