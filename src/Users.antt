-- ===== src/Users.antt =====
-- services/user.py
pub mod MagicLinks
pub mod Links
pub mod Provisioning
pub mod Again
pub mod Deletion
mod Examples
