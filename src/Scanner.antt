-- ===== src/Scanner.antt =====
-- Parts of the scanner that are functions of their arguments: remy-cc/scanner-core/src.
pub mod Fnmatch
pub mod Selection
pub mod Exclusions
pub mod Language
pub mod Config
pub mod Hashes
