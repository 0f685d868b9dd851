-- ===== src/Database.antt =====
-- alembic/versions 0001 to 0003: the tables, their constraints and triggers, as what an INSERT or
-- an UPDATE of a flush does or which constraint refuses it, and the SQL statements of any client.
pub mod Trigger
pub mod Constraints
pub mod Write
pub mod Inversion
pub mod Layers
pub mod Updates
pub mod Statements
pub mod Run
pub mod AppendOnly
pub mod TamperProof
