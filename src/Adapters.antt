-- ===== src/Adapters.antt =====
-- cli/config-adapters: the documents on disk. Frontmatter splits a file, Document maps its YAML to
-- the configuration tree and back, and Store roots the documents in a project directory.
pub mod Frontmatter
pub mod Document
pub mod Store
