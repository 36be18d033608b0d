-- ===== src/Repository.antt =====
-- internal/repository: the session store on Redis, and the user repository on a relational database.
pub mod Redis
pub mod Models
pub mod Users
