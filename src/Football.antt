-- ===== src/Football.antt =====
-- gamecollect_football/reconcile.py: how a provider's match is matched with the seeded schedule
-- (Nearest), and turned round where the provider has the two teams the other way (Orientation).
-- Team names are compared by Names. Adoption moves what was collected on a stub, and Seeding is the
-- seed hook of the pack.
pub mod Names
pub mod Nearest
pub mod Orientation
pub mod Adoption
pub mod Seeding
mod Tests
