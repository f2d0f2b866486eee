-- ===== src/Rlib.antt =====
-- The programs on rlib: `main` of readwrite/client.cc and readwrite/server.cc, of nvm_write/server.cc,
-- and the thread of nvm_write/client.cc. rlib is a copy of another project: its calls are a parameter.
pub mod Interface
pub mod ReadWrite
pub mod Nvm
pub mod Paired
