-- ===== src/Launcher/Resolve/CacheRoot/Candidates.antt =====
-- The choice of the cache directory is the first candidate that passes the probe.
use luminosity.Base.{
  ℕ, Bool, true, false, List, [], ◌∷◌, codes, Option, none, some, Result, ok, ◌≡◌, ◌↔◌, refl, arith,
}
use luminosity.Platform.Path.{FilePath, join}
use luminosity.Launcher.External.{ResolutionError}
use luminosity.Launcher.Resolve.Cache.{CacheFiles}
use luminosity.Launcher.Resolve.CacheRoot.{
  CacheRootConfig, xdg_fallback, unavailable, probe_writable_and_executable, resolve_override,
  resolve_probed, resolve_fallback, resolve_primary, resolve_plugin_root, resolve,
}

abbrev to_list : Option FilePath → List FilePath
to_list none = []
to_list (some dir) = dir ∷ []

-- The candidates in their order: an override is the only one, and without a plugin root there is none.
unfoldable pub candidates : Bool → CacheRootConfig → List FilePath
candidates is_macos config = elim config.cache_dir_override [
  | some dir ↦ dir ∷ []
  | none ↦ (elim config.plugin_root [
    | none ↦ []
    | some root ↦ join root (codes "bin") ∷ to_list (xdg_fallback is_macos config)
  ])
]

module _ {W : Type 0} (files : CacheFiles W) (status : W → FilePath → Option Bool) (process_id : ℕ)
    (is_macos : Bool) where
  -- Each candidate is probed in the state that the probe before left.
  pub first_usable_from : FilePath → Bool × W → (W → Option FilePath × W) → Option FilePath × W
  first_usable_from dir (true, w) rest = (some dir, w)
  first_usable_from dir (false, w) rest = rest w

  unfoldable pub first_usable : List FilePath → W → Option FilePath × W
  first_usable [] w = (none, w)
  first_usable (dir ∷ dirs) w =
      first_usable_from dir (probe_writable_and_executable files status process_id is_macos dir w)
        (first_usable dirs)

  -- The same directory, or none, in the same state.
  abbrev Agrees : Result FilePath ResolutionError × W → Option FilePath × W → Type 0
  Agrees (r, w) (found, w') = (w ≡ w') × ((dir : FilePath) → (r ≡ ok dir) ↔ (found ≡ some dir))

  override-Agrees :
      (dir : FilePath) (probed : Bool × W)
      → Agrees
          (resolve_override files status process_id is_macos dir probed)
          (first_usable_from dir probed (first_usable []))
  unfolding resolve_override first_usable_from first_usable unavailable
  override-Agrees dir (true, w) = (refl, λ d. ground arith)
  override-Agrees dir (false, w) = (refl, λ d. ground arith)

  probed-Agrees :
      (dir : FilePath) (probed : Bool × W)
      → Agrees
          (resolve_probed files status process_id is_macos dir probed)
          (first_usable_from dir probed (first_usable []))
  unfolding resolve_probed first_usable_from first_usable unavailable
  probed-Agrees dir (true, w) = (refl, λ d. ground arith)
  probed-Agrees dir (false, w) = (refl, λ d. ground arith)

  fallback-Agrees :
      (fallback : Option FilePath) (w : W)
      → Agrees
          (resolve_fallback files status process_id is_macos fallback w)
          (first_usable (to_list fallback) w)
  unfolding resolve_fallback first_usable unavailable
  fallback-Agrees none w = (refl, λ d. ground arith)
  fallback-Agrees (some dir) w =
      probed-Agrees dir (probe_writable_and_executable files status process_id is_macos dir w)

  primary-Agrees :
      (config : CacheRootConfig) (dir : FilePath) (probed : Bool × W)
      → Agrees
          (resolve_primary files status process_id is_macos config dir probed)
          (first_usable_from dir probed (first_usable (to_list (xdg_fallback is_macos config))))
  unfolding resolve_primary first_usable_from
  primary-Agrees config dir (true, w) = (refl, λ d. ground arith)
  primary-Agrees config dir (false, w) = fallback-Agrees (xdg_fallback is_macos config) w

  -- The cache directory is the first of the candidates, each probed behind the one before, that can be written to and run
  -- from, and there is an error exactly where none of them can.
  pub resolve-first_usable :
      (config : CacheRootConfig) (w : W)
      → ((resolve files status process_id is_macos config w).1
          ≡ (first_usable (candidates is_macos config) w).1)
        × ((dir : FilePath)
            → ((resolve files status process_id is_macos config w).0 ≡ ok dir)
              ↔ ((first_usable (candidates is_macos config) w).0 ≡ some dir))
  unfolding resolve candidates resolve_plugin_root first_usable unavailable
  resolve-first_usable config w = go config.cache_dir_override config.plugin_root
    where
      go :
          (over plugin : Option FilePath)
          → Agrees
              (resolve files status process_id is_macos
                (record config { cache_dir_override = over; plugin_root = plugin })
                w)
              (first_usable
                (candidates is_macos
                  (record config { cache_dir_override = over; plugin_root = plugin }))
                w)
      go (some dir) plugin =
          override-Agrees dir (probe_writable_and_executable files status process_id is_macos dir w)
      go none none = (refl, λ d. ground arith)
      go none (some root) =
          primary-Agrees (record config { cache_dir_override = none; plugin_root = some root })
            (join root (codes "bin"))
            (probe_writable_and_executable files status process_id is_macos
              (join root (codes "bin")) w)
