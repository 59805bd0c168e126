-- ===== src/Tests/Settings.antt =====
-- The config command over the store in memory.
use luminosity.Base.{ℕ, Text, text_eq, codes, [], none, some, ok, ◌≡◌, refl}
use luminosity.Config.Node.{Mapping, mapping, scalar, string, empty, entry}
use luminosity.Config.Node.Entries.{get, put_found, push, upsert}
use luminosity.Config.Key.Parse.{parse}
use luminosity.Config.Service.{insert, set_leaf, set_leaf_at, descend_for_insert, ensure, child_of}
use luminosity.Config.Service.Access
use luminosity.Config.Service.Access.{set_read, write_back, root_of}
use luminosity.Config.Service.Driver.{service}
use luminosity.Launcher.Cli
use luminosity.Launcher.Cli.{ConfigAction, config_level}
use luminosity.Launcher.ConfigCommand
use luminosity.Launcher.ConfigCommand.{silent, run, set_parsed, asked_level, or_personal}
use luminosity.Launcher.ConfigCommand.RoundTrip.{
  get-set_printed, get-set_preferred, one_line, or_default,
}
use luminosity.Tests.Services.{seven, before, after, author_document}
use luminosity.Tests.Stores.{Memory, memory, memory_write, stored, replaced, memory-IsStore}

-- No number of the tests is a floating-point number.
abbrev no_float : ℕ → Text
no_float _ = []

-- `config set work.id 7 --level team`
set-work_id :
    run no_float (service memory) before (ConfigAction.set (codes "work.id") seven (some Cli.team))
    ≡ (silent, ok tt, after)
unfolding run ConfigCommand.set set_parsed parse asked_level config_level or_personal service
    Access.set set_read write_back root_of insert set_leaf set_leaf_at descend_for_insert ensure
    child_of get put_found push upsert memory_write stored replaced text_eq
set-work_id = refl

get-set_printed_example :
    run no_float
      (service memory)
      after
      (ConfigAction.get (codes "work.id") (some (or_default (some Cli.team))))
    ≡ (one_line seven, ok tt, after)
get-set_printed_example =
    get-set_printed memory memory-IsStore no_float before after (codes "work.id") seven
      (some Cli.team) silent set-work_id

-- The personal level of the store behind a `set` without a level.
abbrev own_written : Mapping
own_written =
    entry (codes "work") (mapping (entry (codes "id") (scalar (string seven)) empty)) empty

abbrev after_own : Memory
after_own = record before { own = some (mapping own_written) }

set-own :
    run no_float (service memory) before (ConfigAction.set (codes "work.id") seven none)
    ≡ (silent, ok tt, after_own)
unfolding run ConfigCommand.set set_parsed parse asked_level config_level or_personal service
    Access.set set_read write_back root_of insert set_leaf set_leaf_at descend_for_insert ensure
    child_of get put_found push upsert memory_write stored replaced text_eq
set-own = refl

get-set_preferred_example :
    run no_float (service memory) after_own (ConfigAction.get (codes "work.id") none)
    ≡ (one_line seven, ok tt, after_own)
unfolding stored
get-set_preferred_example =
    get-set_preferred memory memory-IsStore no_float before after_own (codes "work.id") seven silent
      (some (mapping author_document)) set-own refl
