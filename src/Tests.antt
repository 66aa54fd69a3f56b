-- ===== src/Tests.antt =====
-- Concrete runs of the definitions.
mod Data
mod Agent
mod Catalog
mod Runtime
mod Releases
mod Snapshot
mod Gigachat
mod Collisions
mod Settings
mod Api
mod Bootstrap
mod Migrations
