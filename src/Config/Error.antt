-- ===== src/Config/Error.antt =====
-- cli/config/src/error.rs, and the boundary error of cli/kernel/src/lib.rs
use luminosity.Base.{Text, codes, Option, none, some, ◌++◌}
use luminosity.Config.Level
use luminosity.Config.Level.{Level}
use luminosity.Config.Key
use luminosity.Config.Key.{Key}

pub data Existing : Type 0 where
  value section : Existing

unfoldable pub opposite : Existing → Text
opposite value = codes "section"
opposite section = codes "value"

-- `Display for Existing`
unfoldable pub display_existing : Existing → Text
display_existing value = codes "value"
display_existing section = codes "section"

pub data ConfigError : Type 0 where
  not_found : Key → Option Level → ConfigError
  path_conflict : Key → Text → Existing → ConfigError
  malformed_frontmatter : Text → Text → ConfigError
  io : Text → Text → ConfigError
  invalid_key : Text → ConfigError
  invalid_skill_name : Text → ConfigError
  unsafe_path : Text → ConfigError

-- `Display for ConfigError`
unfoldable pub display : ConfigError → Text
unfolding display_existing opposite
display (not_found key none) = codes "config key '" ++ (Key.display key ++ codes "' is not set")
display (not_found key (some level)) =
    codes "config key '"
    ++ (Key.display key ++ (codes "' is not set at level '" ++ (Level.display level ++ codes "'")))
display (path_conflict key at existing) =
    codes "cannot set '"
    ++ (Key.display key
        ++ (codes "': '"
            ++ (at
                ++ (codes "' is a "
                    ++ (display_existing existing ++ (codes ", not a " ++ opposite existing))))))
display (malformed_frontmatter path detail) =
    codes "config file '" ++ (path ++ (codes "' has malformed frontmatter: " ++ detail))
display (io path detail) = codes "I/O error on config file '" ++ (path ++ (codes "': " ++ detail))
display (invalid_key key) =
    codes "invalid config key '" ++ (key ++ codes "': expected dot-separated non-empty segments")
display (invalid_skill_name name) =
    codes "invalid skill name '"
    ++ (name ++ codes "': expected non-empty alphanumeric, '-', or '_'")
display (unsafe_path path) =
    codes "refused to read '" ++ (path ++ codes "': it resolves outside the .luminosity directory")

-- `kernel::Error`
pub data KernelError : Type 0 where
  failed : Text → KernelError

-- `From<ConfigError> for kernel::Error`
unfoldable pub to_kernel_error : ConfigError → KernelError
to_kernel_error error = failed (display error)
