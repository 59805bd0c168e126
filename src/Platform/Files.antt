-- ===== src/Platform/Files.antt =====
-- `std::fs`, over the state `W` of the file system. Which calls succeed is up to it.
use luminosity.Base.{Bool, Text, Result}
use luminosity.Platform.Path.{FilePath}

-- `std::io::Error`: whether its kind is `NotFound`, and its text
pub record IoError : Type 0 where
  pub is_not_found : Bool
  pub detail : Text

pub record FileSystem (W : Type 0) : Type 0 where
  pub read_to_string : W → FilePath → Result Text IoError
  pub canonicalize : W → FilePath → Result FilePath IoError
  -- `symlink_metadata(path)`, of which only `file_type().is_symlink()` is asked
  pub symlink_metadata : W → FilePath → Result Bool IoError
  pub is_dir : W → FilePath → Bool
  pub exists : W → FilePath → Bool
  pub create_dir_all : W → FilePath → Result (Unit {0}) IoError × W
  pub write : W → FilePath → Text → Result (Unit {0}) IoError × W
  pub rename : W → FilePath → FilePath → Result (Unit {0}) IoError × W
  pub remove_file : W → FilePath → Result (Unit {0}) IoError × W
