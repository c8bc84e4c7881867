-- ===== src/Plugins/Sites.antt =====
-- The plugins of single sites: what each tests in a URL, and the name of its domain.
pub mod Games
pub mod Music
pub mod Others
