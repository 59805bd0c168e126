-- ===== src/Config.antt =====
-- cli/config: the configuration core. Its value objects are Level, Key, Source and Node; its
-- services are Service (keys) and Fragment (bodies).
pub mod Level
pub mod Key
pub mod Error
pub mod Source
pub mod Node
pub mod Service
pub mod Fragment
