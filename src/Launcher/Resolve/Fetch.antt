-- ===== src/Launcher/Resolve/Fetch.antt =====
-- cli/launcher/src/launch/outbound/resolve/fetcher.rs. A run fetches each of its URLs once, so what
-- the network answers is a function of the URL and of the number of the attempt.
pub mod Attempts
use luminosity.Base.{
  ℕ, zero, suc, ◌+◌, Bool, true, false, not, ◌&&◌, ◌||◌, Text, text_eq, codes, List, [], ◌∷◌, ◌++◌,
  Option, none, some, strip_prefix, Result, ok, err, leb, ltb, ◌==◌, if◌then◌else◌,
}

abbrev pub Bytes : Type 0
Bytes = List ℕ

pub data FetchError : Type 0 where
  not_found : FetchError
  unreachable : Text → FetchError

pub data Terminal : Type 0 where
  missing : Terminal
  retryable : Text → Terminal

-- A response that arrived: its status, how that displays, and its body or the failure to read it.
pub record Response : Type 0 where
  pub status : ℕ
  pub status_text : Text
  pub body : Result Bytes Text

abbrev pub Network : Type 0
Network = Text → ℕ → Result Response Text

abbrev starts_with : Text → Text → Bool
starts_with prefix text = elim (strip_prefix prefix text) [ some _ ↦ true | none ↦ false ]

-- `text.ends_with(suffix)`
unfoldable pub ends_with_text : Text → Text → Bool
ends_with_text suffix [] = text_eq suffix []
ends_with_text suffix (c ∷ cs) =
    let later = ends_with_text suffix cs in if text_eq suffix (c ∷ cs) then true else later

unfoldable pub is_allowed_redirect_host : Text → Bool
is_allowed_redirect_host host =
    text_eq host (codes "github.com") || ends_with_text (codes ".githubusercontent.com") host

unfoldable pub is_https : Text → Bool
is_https url = starts_with (codes "https://") url

pub data RedirectAction : Type 0 where
  follow stop : RedirectAction
  error : Text → RedirectAction

-- The closure of `redirect_policy`, on the number of URLs before this one and its host.
unfoldable pub redirect_policy : ℕ → Option Text → RedirectAction
redirect_policy previous none = if ltb 10 previous then error (codes "too many redirects") else stop
redirect_policy previous (some host) =
    if ltb 10 previous
    then error (codes "too many redirects")
    else (if is_allowed_redirect_host host then follow else stop)

pub record Fetcher : Type 0 where
  pub max_attempts : ℕ
  pub require_https : Bool

-- The fetcher of `Fetcher::new`. The back-off only lets time pass.
abbrev pub production : Fetcher
production = record { max_attempts = 3; require_https = true }

-- What `try_get` makes of a response.
unfoldable pub of_response : Response → Result Bytes Terminal
of_response response =
    if response.status == 404
    then err missing
    else (if leb 500 response.status && ltb response.status 600
        then err (retryable (codes "server error " ++ response.status_text))
        else (if not (leb 200 response.status && ltb response.status 300)
            then err (retryable (codes "unexpected status " ++ response.status_text))
            else (elim response.body [ ok body ↦ ok body | err detail ↦ err (retryable detail) ])))

unfoldable pub of_reply : Result Response Text → Result Bytes Terminal
of_reply (ok response) = of_response response
of_reply (err detail) = err (retryable detail)

module _ (network : Network) (url : Text) where
  unfoldable pub try_get : ℕ → Result Bytes Terminal
  try_get attempt = of_reply (network url attempt)

  -- The body of the loop, on what the attempt gave and what the rest of the loop would give.
  unfoldable pub decide :
      Result Bytes Terminal → (Text → Result Bytes FetchError) → Result Bytes FetchError
  decide (ok bytes) rest = ok bytes
  decide (err missing) rest = err not_found
  decide (err (retryable detail)) rest = rest detail

  -- The loop from `attempt` on, with `left` attempts to go and the last detail.
  unfoldable pub attempts : ℕ → ℕ → Text → Result Bytes FetchError
  attempts zero attempt last = err (unreachable last)
  attempts (suc left) attempt last =
      decide (try_get attempt) (λ detail. attempts left (attempt + 1) detail)

unfoldable pub get : Fetcher → Network → Text → Result Bytes FetchError
get fetcher network url =
    if fetcher.require_https && not (is_https url)
    then err (unreachable (codes "refusing non-https URL (scheme not permitted): " ++ url))
    else attempts network url fetcher.max_attempts 0 []
