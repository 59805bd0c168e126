-- ===== src/Launcher/Resolve/Cache/Stems.antt =====
-- Which subcommand the name of a cached file belongs to.
use luminosity.Base.{
  ℕ, true, false, &&-eq-true, Text, codes, [], ◌∷◌, ◌++◌, append_assoc, none, some, all,
  strip_prefix, ◌==◌, ◌≡◌, refl, arith, len,
}
use luminosity.Launcher.Resolve.Cache.{
  is_ascii_hexdigit, is_sha256_hex, stem, checksum_of, behind_last_dash, counts,
}

strip_prefix-append : (p t : Text) → strip_prefix p (p ++ t) ≡ some t
strip_prefix-append [] t = refl
strip_prefix-append (c ∷ cs) t = ground (arith, strip_prefix-append cs t)

behind_last_dash-hex : (t : Text) → all is_ascii_hexdigit t ≡ true → behind_last_dash t ≡ none
unfolding behind_last_dash
behind_last_dash-hex [] h = refl
behind_last_dash-hex (c ∷ cs) h =
    let (digit, digits) = &&-eq-true (is_ascii_hexdigit c) (all is_ascii_hexdigit cs) h in
    rw (behind_last_dash-hex cs digits, behind_last_dash) (rw (no_dash c digit))
  where
    no_dash : (c : ℕ) → is_ascii_hexdigit c ≡ true → (c == b'-') ≡ false
    no_dash c h = ground arith

behind_last_dash-append :
    (t sha : Text)
    → all is_ascii_hexdigit sha ≡ true
    → behind_last_dash (t ++ (codes "-" ++ sha)) ≡ some sha
unfolding behind_last_dash
behind_last_dash-append [] sha h = rw (behind_last_dash-hex sha h)
behind_last_dash-append (c ∷ cs) sha h = rw (behind_last_dash-append cs sha h)

hex-all : (sha : Text) → is_sha256_hex sha ≡ true → all is_ascii_hexdigit sha ≡ true
unfolding is_sha256_hex
hex-all sha h = (&&-eq-true (len sha == 64) _ h).1

counts-append :
    (prefix t sha : Text)
    → is_sha256_hex sha ≡ true
    → counts prefix (prefix ++ (t ++ (codes "-" ++ sha))) ≡ true
unfolding counts
counts-append prefix t sha h =
    rw (strip_prefix-append prefix (t ++ (codes "-" ++ sha)), counts)
      (rw (behind_last_dash-append t sha (hex-all sha h)) h)

-- A file that was stored under a checksum is found again by its name and version, with that
-- checksum.
pub checksum_of-stem :
    (name version sha : Text)
    → is_sha256_hex sha ≡ true
    → checksum_of (name ++ (codes "-" ++ (version ++ codes "-"))) (stem name version sha) ≡ some sha
unfolding checksum_of stem
checksum_of-stem name version sha h =
    rw
      (
        parts name version sha,
        strip_prefix-append (name ++ (codes "-" ++ (version ++ codes "-"))) sha,
        checksum_of,
      )
      (rw h)
  where
    parts :
        (name version sha : Text)
        → name ++ (codes "-" ++ (version ++ (codes "-" ++ sha)))
          ≡ (name ++ (codes "-" ++ (version ++ codes "-"))) ++ sha
    parts name version sha = simp append_assoc

-- The retention cap of a subcommand counts the files that were stored for it, and with them those
-- of every subcommand whose name extends its own by a dash.
pub counts-stem :
    (name other version sha : Text)
    → is_sha256_hex sha ≡ true
    → (counts (name ++ codes "-") (stem name version sha) ≡ true)
      × (counts (name ++ codes "-") (stem (name ++ (codes "-" ++ other)) version sha) ≡ true)
unfolding stem
counts-stem name other version sha h = (
  rw (own name version sha) (counts-append (name ++ codes "-") version sha h),
  rw (extended name other version sha)
      (counts-append (name ++ codes "-") (other ++ (codes "-" ++ version)) sha h),
)
  where
    own :
        (name version sha : Text)
        → name ++ (codes "-" ++ (version ++ (codes "-" ++ sha)))
          ≡ (name ++ codes "-") ++ (version ++ (codes "-" ++ sha))
    own name version sha = simp append_assoc

    extended :
        (name other version sha : Text)
        → (name ++ (codes "-" ++ other)) ++ (codes "-" ++ (version ++ (codes "-" ++ sha)))
          ≡ (name ++ codes "-") ++ ((other ++ (codes "-" ++ version)) ++ (codes "-" ++ sha))
    extended name other version sha = simp append_assoc
