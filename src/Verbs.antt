-- ===== src/Verbs.antt =====
-- The part of libibverbs that the code calls. The library is not in this repository: its calls are
-- the fields of a record (Interface) over a type of worlds, and only their types are fixed here. The
-- other child declares its enumerations and structures (Types).
pub mod Types
pub mod Interface
