-- ===== src/Orm.antt =====
-- src/framework/orm.h: the object mapper between records and SQL tables.
pub mod Where
pub mod Schema
pub mod Statements
pub mod Engine
mod Tests
