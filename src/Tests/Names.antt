-- ===== src/Tests/Names.antt =====
-- Keys and skill names.
use luminosity.Base.{codes, [], ◌∷◌, ok, ◌≡◌, ◌≢◌, refl}
use luminosity.Config.Key.{Key, display}
use luminosity.Config.Key.Parse.{parse}
use luminosity.Config.Key.RoundTrip.{IsValid, parse-display, parse-IsValid}
use luminosity.Config.Source
use luminosity.Config.Source.{SkillName, permitted}
use luminosity.Config.Source.Names.{All, IsSafe, parse-IsSafe}

abbrev pub work_id : Key
work_id = record { segments = codes "work" ∷ codes "id" ∷ [] }

pub work_id-IsValid : IsValid work_id
work_id-IsValid = record { has_segment = λ e. cc; all_segments = refl }

parse-work_id : parse (codes "work.id") ≡ ok work_id
unfolding parse
parse-work_id = refl

parse-display_example : parse (display work_id) ≡ ok work_id
parse-display_example = parse-display work_id work_id-IsValid

parse-IsValid_example : IsValid work_id × (display work_id ≡ codes "work.id")
parse-IsValid_example = parse-IsValid (codes "work.id") work_id parse-work_id

abbrev skill : SkillName
skill = record { name = codes "plan_2" }

parse-skill : Source.parse (codes "plan_2") ≡ ok skill
unfolding Source.parse permitted
parse-skill = refl

parse-IsSafe_example :
    (Source.as_str skill ≡ codes "plan_2") × (codes "plan_2" ≢ []) × All IsSafe (codes "plan_2")
parse-IsSafe_example = parse-IsSafe (codes "plan_2") skill parse-skill
