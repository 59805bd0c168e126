-- ===== src/Config/Service/Access.antt =====
-- The driven ports of cli/config/src/service.rs, and `ConfigService` over them. A port acts on the
-- state `W` of the world behind it.
pub mod Laws
use luminosity.Base.{Text, Option, none, some, Result, ok, err, ◌>>=◌}
use luminosity.Config.Error.{ConfigError}
use luminosity.Config.Key.{Key}
use luminosity.Config.Level.{Level, team, personal}
use luminosity.Config.Node.{Node, mapping, Mapping, empty}
use luminosity.Config.Service.{Resolved, found, absent, resolve, insert}

-- `ReadConfigLevel` and `WriteConfigLevel`
pub record Ports (W : Type 0) : Type 0 where
  pub read : W → Level → Result (Option Node) ConfigError
  pub write : W → Level → Node → Result (Unit {0}) ConfigError × W

-- What `set` starts from: the mapping of the document, or an empty one.
unfoldable pub root_of : Option Node → Mapping
root_of (some (mapping m)) = m
root_of _ = empty

module _ {W : Type 0} (ports : Ports W) where
  open ports use {read, write}

  unfoldable pub get : W → Key → Option Level → Result Resolved ConfigError
  get w key (some level) = do document ← read w level; ok (resolve document key)
  get w key none = do
    own ← read w personal
    shared ← read w team
    ok (elim (resolve own key) [ found s ↦ found s | absent ↦ resolve shared key ])

  -- `self.writer.write(level, &Node::Mapping(root))`, if the insertion succeeds.
  unfoldable pub write_back :
      W → Level → Result Mapping ConfigError → Result (Unit {0}) ConfigError × W
  write_back w level (err e) = (err e, w)
  write_back w level (ok root) = write w level (mapping root)

  unfoldable pub set_read :
      W → Key → Text → Level → Result (Option Node) ConfigError → Result (Unit {0}) ConfigError × W
  set_read w key v level (err e) = (err e, w)
  set_read w key v level (ok document) =
      write_back w level (insert (root_of document) key.segments v key)

  unfoldable pub set : W → Key → Text → Level → Result (Unit {0}) ConfigError × W
  unfolding write_back set_read root_of
  set w key v level = set_read w key v level (read w level)
