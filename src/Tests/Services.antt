-- ===== src/Tests/Services.antt =====
-- The service over a store in memory.
use luminosity.Base.{true, Text, text_eq, codes, [], ◌∷◌, none, some, ok, err, ◌≡◌, ◌↔◌, refl}
use luminosity.Config.Error.{path_conflict, section}
use luminosity.Config.Key.{Key}
use luminosity.Config.Level.{team, personal}
use luminosity.Config.Node.{Mapping, mapping, scalar, string, empty, entry}
use luminosity.Config.Node.Entries.{get, put_found, push, upsert}
use luminosity.Config.Service.{
  found, insert, set_leaf, set_leaf_at, descend_for_insert, ensure, child_of,
}
use luminosity.Config.Service.Access
use luminosity.Config.Service.Access.{set, set_read, write_back, root_of}
use luminosity.Config.Service.Access.Laws.{
  get-set_self, get-set_ne, get-set_other_level, get-set_err,
}
use luminosity.Config.Service.Conflicts.{Conflicts, insert-err_iff}
use luminosity.Tests.Names.{work_id, work_id-IsValid}
use luminosity.Tests.Stores.{Memory, memory, memory_write, stored, replaced, memory-IsStore}

abbrev pub seven : Text
seven = codes "7"

abbrev work : Key
work = record { segments = codes "work" ∷ [] }

abbrev author : Key
author = record { segments = codes "author" ∷ [] }

abbrev pub author_document : Mapping
author_document = entry (codes "author") (scalar (string (codes "me"))) empty

-- The document with the key added.
abbrev pub both : Mapping
both =
    entry (codes "author") (scalar (string (codes "me")))
      (entry (codes "work") (mapping (entry (codes "id") (scalar (string seven)) empty)) empty)

abbrev pub before : Memory
before = record { shared = some (mapping author_document); own = none; writable = true }

abbrev pub after : Memory
after = record { shared = some (mapping both); own = none; writable = true }

insert-both : insert author_document work_id.segments seven work_id ≡ ok both
unfolding insert set_leaf set_leaf_at descend_for_insert ensure child_of get put_found push upsert
    text_eq
insert-both = refl

set-after : set memory before work_id seven team ≡ (ok tt, after)
unfolding set set_read write_back root_of insert set_leaf set_leaf_at descend_for_insert ensure
    child_of get put_found push upsert memory_write stored replaced text_eq
set-after = refl

set-refused :
    set memory after work seven team ≡ (err (path_conflict work (codes "work") section), after)
unfolding set set_read write_back root_of insert set_leaf set_leaf_at get memory_write stored
    text_eq
set-refused = refl

author-ne-work : author.segments ≡ work_id.segments → ⊥
author-ne-work e = cc

get-set_self_example : Access.get memory after work_id (some team) ≡ ok (found (string seven))
get-set_self_example =
    get-set_self memory memory-IsStore before after work_id seven team work_id-IsValid set-after

get-set_ne_example :
    Access.get memory after author (some team) ≡ Access.get memory before author (some team)
get-set_ne_example =
    get-set_ne memory memory-IsStore before after work_id author seven team
      (record { has_segment = λ e. cc; all_segments = refl }) author-ne-work set-after

get-set_other_level_example :
    Access.get memory (set memory before work_id seven team).1 work_id (some personal)
    ≡ Access.get memory before work_id (some personal)
get-set_other_level_example =
    get-set_other_level memory memory-IsStore before work_id work_id seven team personal (λ e. cc)

get-set_err_example : Access.get memory after work_id none ≡ Access.get memory after work_id none
get-set_err_example =
    get-set_err memory memory-IsStore after after work work_id seven team none
      (path_conflict work (codes "work") section) set-refused

insert-err_iff_example :
    (insert both work.segments seven work ≡ err (path_conflict work (codes "work") section))
    ↔ Conflicts both work.segments work (path_conflict work (codes "work") section)
insert-err_iff_example =
    insert-err_iff both work.segments seven work (path_conflict work (codes "work") section)
