-- ===== src/Kernel.antt =====
-- The kernel of ex3/q1/xv6, a module for each part.
pub mod Arguments
pub mod Blocks
pub mod Console
pub mod Files
pub mod Descriptors
pub mod Inodes
pub mod Icache
pub mod Dirs
pub mod Paths
pub mod Log
pub mod Pages
pub mod Pipe
pub mod Proc
pub mod Sem
pub mod SemCalls
pub mod Sleeplock
pub mod Spinlock
pub mod Strings
