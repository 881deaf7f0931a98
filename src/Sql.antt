-- ===== src/Sql.antt =====
-- internal/db/sql: the filters, their syntax trees and their evaluation.
pub mod Like
pub mod Value
pub mod Predicate
pub mod Plan
pub mod Schema
pub mod Syntax
pub mod Analyzer
pub mod Rewrite
pub mod Build
