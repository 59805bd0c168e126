-- ===== src/Config/Service/Driver.antt =====
-- The driving port `ConfigAccess` of cli/config/src/service.rs, and the service behind it.
use luminosity.Base.{Text, Option, Result}
use luminosity.Config.Error.{ConfigError}
use luminosity.Config.Key.{Key}
use luminosity.Config.Level.{Level}
use luminosity.Config.Service.{Resolved}
use luminosity.Config.Service.Access
use luminosity.Config.Service.Access.{Ports}

pub record ConfigAccess (W : Type 0) : Type 0 where
  pub get : W → Key → Option Level → Result Resolved ConfigError
  pub set : W → Key → Text → Level → Result (Unit {0}) ConfigError × W

-- `ConfigService::new` with the store as both of its ports
unfoldable pub service : {W : Type 0} → Ports W → ConfigAccess W
service ports = record { get = Access.get ports; set = Access.set ports }
