-- ===== src/Db.antt =====
-- The PostgreSQL tables of migrations/, each as the list of its rows, with the columns that the
-- modelled code reads or writes. An id (UUID) is a number, and so is a time, in microseconds.
-- A query never fails: `Error::Database`, a lost connection, has no counterpart.
mod Tables
mod Keys
pub use Tables.*
pub use Keys.*
