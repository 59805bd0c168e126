-- ===== src/Launcher/Resolve/Fetch/Attempts.antt =====
-- What the retries of a fetch come to.
use luminosity.Base.{
  ℕ, zero, suc, ◌+◌, ◌<◌, true, false, not, ◌&&◌, Bool-cases, Text, codes, ◌++◌, Result, ok, err,
  [], ◌≡◌, ◌⊎◌, inl, inr, refl, arith,
}
use luminosity.Launcher.Resolve.Fetch.{
  Bytes, FetchError, not_found, unreachable, Terminal, missing, retryable, Network, is_https,
  Fetcher, try_get, decide, attempts, get,
}

module _ (network : Network) (url : Text) where
  -- Every attempt below `n` failed in a way that is tried again.
  pub Retried : ℕ → Type 0
  Retried n = (j : ℕ) → j < n → (detail : Text) × (try_get network url j ≡ err (retryable detail))

  -- The detail of the last attempt below `n`, if there is one.
  pub IsLast : ℕ → Text → Type 0
  IsLast n detail = (k : ℕ) → n ≡ suc k → try_get network url k ≡ err (retryable detail)

  -- How `limit` attempts can end.
  pub data Ended (limit : ℕ) : Result Bytes FetchError → Type 0 where
    answered :
        (i : ℕ) (bytes : Bytes)
        → i < limit
        → Retried i
        → try_get network url i ≡ ok bytes
        → Ended limit (ok bytes)
    gone :
        (i : ℕ)
        → i < limit
        → Retried i
        → try_get network url i ≡ err missing
        → Ended limit (err not_found)
    exhausted :
        (last : Text) → Retried limit → IsLast limit last → Ended limit (err (unreachable last))

  Retried-suc :
      (n : ℕ) (detail : Text)
      → Retried n
      → try_get network url n ≡ err (retryable detail)
      → Retried (n + 1)
  unfolding Retried
  Retried-suc n detail before now j below = elim (lt_or_eq j n below) [
    | inl less ↦ before j less
    | inr same ↦ (detail, rw same now)
  ]
    where
      lt_or_eq : (j n : ℕ) → j < n + 1 → (j < n) ⊎ (j ≡ n)
      lt_or_eq j n h = ground arith

  attempts-Ended :
      (limit left i : ℕ) (last : Text)
      → i + left ≡ limit
      → Retried i
      → IsLast i last
      → Ended limit (attempts network url left i last)
  unfolding attempts decide IsLast
  attempts-Ended limit zero i last total before is_last =
      let same : i ≡ limit = ground arith in rw (← same) (exhausted last before is_last)
  attempts-Ended limit (suc left) i last total before is_last =
      go (try_get network url i) refl
        (λ detail. attempts-Ended limit left (i + 1) detail (ground arith))
    where
      go :
          (r : Result Bytes Terminal)
          → try_get network url i ≡ r
          → ((detail : Text)
              → Retried (i + 1)
              → IsLast (i + 1) detail
              → Ended limit (attempts network url left (i + 1) detail))
          → Ended limit (decide network url r (λ detail. attempts network url left (i + 1) detail))
      go (ok bytes) e more = answered i bytes (ground arith) before e
      go (err missing) e more = gone i (ground arith) before e
      go (err (retryable detail)) e more =
          more detail (Retried-suc i detail before e)
            (λ k p. let same : i ≡ k = ground arith in rw (← same) e)

-- How a fetch can end: it is refused for its scheme, or its attempts end.
pub data Fetched (fetcher : Fetcher) (network : Network) (url : Text)
    : Result Bytes FetchError → Type 0 where
  refused :
      fetcher.require_https ≡ true
      → is_https url ≡ false
      → Fetched fetcher network url
          (err (unreachable (codes "refusing non-https URL (scheme not permitted): " ++ url)))
  tried :
      {r : Result Bytes FetchError}
      → (fetcher.require_https ≡ true → is_https url ≡ true)
      → Ended network url fetcher.max_attempts r
      → Fetched fetcher network url r

-- Where https is required, a fetch of a URL that is not https ends with that refusal, whatever the
-- network would answer at that URL. Otherwise it gives the first definite answer, bytes or a 404, of at most `max_attempts` attempts, all before it having
-- failed in another way, or the detail of the last attempt if none of them got one.
pub get-Fetched :
    (fetcher : Fetcher) (network : Network) (url : Text)
    → Fetched fetcher network url (get fetcher network url)
unfolding get Retried IsLast
get-Fetched fetcher network url = elim (Bool-cases (fetcher.require_https && not (is_https url))) [
  | inl bad ↦ rw bad (refused (ground arith) (ground arith))
  | inr fine ↦ rw fine (
      tried (λ h. ground arith)
        (attempts-Ended network url fetcher.max_attempts fetcher.max_attempts 0 [] (ground arith)
          (λ j p. absurd (omega (arith, p))) (λ k p. absurd (omega (arith, p)))))
]
