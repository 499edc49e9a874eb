-- ===== src/Analyzer.antt =====
-- pkg/analyzer: the types of SQL, the built-in functions, and the tables that a statement names.
pub mod Types
pub mod TypeLaws
pub mod Functions
pub mod Aggregates
pub mod Scope
pub mod Catalog
pub mod Names
mod Tests
