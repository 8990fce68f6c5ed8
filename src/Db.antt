-- ===== src/Db.antt =====
-- The database layer: transactions, and the records and statements of PostgreSQL.
pub mod Transaction
pub mod Recordset
pub mod Statement
