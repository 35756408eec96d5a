-- ===== src/Postgres.antt =====
-- internal/insights/postgres/repository.go over the tables that its SQL names.
pub mod Tables
pub mod Session
pub mod Rows
pub mod Begin
pub mod Save
pub mod Failure
pub mod Schedule
pub mod Events
pub mod Counting
pub mod Extension
pub mod JobLaw
pub mod Steps
