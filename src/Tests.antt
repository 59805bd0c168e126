-- ===== src/Tests.antt =====
-- Concrete inputs on which the theorems hold: small stores, files and documents.
mod Stores
mod Disks
mod Folders
mod Services
mod Documents
mod Files
mod Fragments
mod Names
mod Commands
mod Releases
mod Settings
mod Launches
mod Verifications
