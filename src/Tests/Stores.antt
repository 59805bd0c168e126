-- ===== src/Tests/Stores.antt =====
-- A configuration store in memory: a document for each level, which may refuse writes.
use luminosity.Base.{
  Bool, codes, Option, some, Result, ok, err, ◌≡◌, ◌≢◌, refl, if◌then◌else◌, arith,
}
use luminosity.Config.Error.{ConfigError, io}
use luminosity.Config.Level.{Level, team, personal}
use luminosity.Config.Node.{Node}
use luminosity.Config.Service.Access.{Ports}
use luminosity.Config.Service.Access.Laws.{IsStore}

pub record Memory : Type 0 where
  pub shared : Option Node
  pub own : Option Node
  pub writable : Bool

unfoldable pub stored : Memory → Level → Option Node
stored m team = m.shared
stored m personal = m.own

unfoldable pub replaced : Memory → Level → Node → Memory
replaced m team n = record m { shared = some n }
replaced m personal n = record m { own = some n }

abbrev pub refused : ConfigError
refused = io (codes "memory") (codes "read only")

unfoldable pub memory_write : Memory → Level → Node → Result (Unit {0}) ConfigError × Memory
memory_write m level n = if m.writable then (ok tt, replaced m level n) else (err refused, m)

abbrev pub memory : Ports Memory
memory = record { read = λ m level. ok (stored m level); write = memory_write }

stored-replaced :
    (m : Memory) (level : Level) (n : Node) → stored (replaced m level n) level ≡ some n
unfolding stored replaced
stored-replaced m team n = refl
stored-replaced m personal n = refl

stored-replaced_other :
    (m : Memory) (level other : Level) (n : Node)
    → other ≢ level
    → stored (replaced m level n) other ≡ stored m other
unfolding stored replaced
stored-replaced_other m team team n h = absurd (h refl)
stored-replaced_other m team personal n h = refl
stored-replaced_other m personal team n h = refl
stored-replaced_other m personal personal n h = absurd (h refl)

pub memory-IsStore : IsStore memory
unfolding memory_write
memory-IsStore = record {
  IsKept = λ n. Unit {0};
  set_kept = λ w level document segments v key root was inserted. tt;
  read_back = λ w w' level n kept h. ground (arith, stored-replaced w level n);
  failed_write = λ w w' level n e h other. ground arith;
  other_level = λ w level other n h. ground (arith, stored-replaced_other w level other n h);
}
