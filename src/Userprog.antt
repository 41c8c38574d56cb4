-- ===== src/Userprog.antt =====
-- The memory side of user programs, code/userprog.
pub mod BitMap
pub mod Paging
pub mod AddrSpace
pub mod Syscall
