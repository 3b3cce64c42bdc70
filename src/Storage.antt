-- ===== src/Storage.antt =====
-- storage/sqlite_backend.py and storage/base.py: the tables of the gateway. Each write is one critical
-- section under `_write_lock`.
pub mod Rows
pub mod Sql
pub mod Tokens
pub mod Updates
pub mod Sessions
pub mod Files
pub mod Drop
pub mod Audit
pub mod Rename
