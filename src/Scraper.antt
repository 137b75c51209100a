-- ===== src/Scraper.antt =====
-- The lists of proxies that are read: crates/proxy-core/src/scraper, parse.rs and links.rs.
pub mod Build
pub mod Links
pub mod Tables
pub mod Parse
pub mod Built
