-- ===== src/Database.antt =====
-- tessera/db/memory.py, `class InMemoryDatabase`: users, sessions and organizations.
pub mod Users
pub mod Sessions
pub mod Organizations
pub mod Saml
pub mod Memberships
pub mod Webhooks
