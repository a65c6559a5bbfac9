-- ===== src/Api.antt =====
-- internal/api/middleware.go: what a request passes before the API answers it. Times are in
-- nanoseconds.
pub mod Limit
use shiva_blockchain.Base.{
  ℕ, zero, suc, ◌+◌, ◌-◌, ◌*◌, ◌/◌, ◌%◌, ◌^◌, ◌≤◌, ◌<◌, String, ◌≡◌, refl, sym, ap, ◌∙◌, ◌≢◌, ◌↔◌,
  ◌⊎◌, inl, inr, Bool, true, false, not, ◌&&◌, ◌||◌, Option, none, some, List, [], ◌∷◌, ◌++◌, map,
  foldl, arith, str_eq, eq_iff, eq_refl, ltb, leb, ◌==◌, if◌then◌else◌, ltb→lt, lt→ltb, leb→le,
  ==_iff, tests, Bool-cases, Option-cases, length, take, length-append, length-take-le, u64_mod,
  add64, sub64, mul64, add64-eq-add, sub64-eq-sub, add64-lt, word_laws, Result, ok, err, ◌>>=◌,
  ◌>>◌, fail_if, or_fail, map_err, Result-cases, Bytes, codes, has_prefix, decimal, decimal_string,
  str_append,
}
use shiva_blockchain.Strings.{trim_space, split}
use shiva_blockchain.Amm.Pool.{equal_fold}
use shiva_blockchain.Assoc.{Assoc, get_or, insert}

pub record Request : Type 0 where
  pub method : String
  pub path : String
  pub remote_addr : String
  pub headers : Assoc String

-- `r.Header.Get(name)`
unfoldable pub header : String → Request → String
header name r = get_or "" name r.headers

pub record RateLimiter : Type 0 where
  pub limit : ℕ
  pub window : ℕ
  pub counts : Assoc (List ℕ)

-- The times after `now - window`.
unfoldable pub recent : ℕ → ℕ → List ℕ → List ℕ
recent window now [] = []
recent window now (t ∷ l) =
    let rest = recent window now l in if ltb now (t + window) then t ∷ rest else rest

-- `allow`
unfoldable pub allow : String → ℕ → RateLimiter → Bool × RateLimiter
allow key now rl =
    let kept = recent rl.window now (get_or [] key rl.counts) in
    if leb rl.limit (length kept)
    then (false, record rl { counts = insert key kept rl.counts })
    else (true, record rl { counts = insert key (kept ++ (now ∷ [])) rl.counts })

-- `newRateLimiter(120, time.Minute)`
unfoldable pub new_rate_limiter : RateLimiter
new_rate_limiter = record { limit = 120; window = 60 * 10 ^ 9; counts = [] }

-- `originAllowed`
unfoldable pub origin_allowed : String → List String → Bool
origin_allowed origin [] = false
origin_allowed origin (o ∷ l) =
    str_eq o "*" || equal_fold (trim_space o) origin || origin_allowed origin l

-- `needsAPIKey`
unfoldable pub needs_api_key : Request → Bool
needs_api_key r =
    str_eq r.method "POST"
    && (str_eq r.path "/api/v1/tx" || str_eq r.path "/api/v1/faucet" || str_eq r.path "/rpc")

abbrev first_part : List String → String
first_part [] = ""
first_part (s ∷ l) = s

-- `remoteIP`
unfoldable pub remote_ip : Request → String
remote_ip r =
    let forwarded = header "X-Forwarded-For" r in
    let real = header "X-Real-IP" r in
    if not (str_eq forwarded "")
    then trim_space (first_part (split b',' forwarded))
    else if not (str_eq real "")
    then trim_space real
    else first_part (split b':' r.remote_addr)

pub record Middleware : Type 0 where
  pub cors_origins : List String
  pub api_key : String
  pub limiter : RateLimiter

-- How a request ends: it is answered as a preflight, refused, or handed on.
pub data Outcome : Type 0 where
  preflight rate_limited unauthorized served : Outcome

-- Whether `handleCORS` writes the headers that allow the origin.
unfoldable pub cors_headers : Middleware → Request → Bool
cors_headers m r =
    let origin = header "Origin" r in
    not (str_eq origin "")
    && (elim m.cors_origins [ [] ↦ true | _ ∷ _ ↦ false ] || origin_allowed origin m.cors_origins)

-- `handleCORS` returns true: a preflight request ends here.
unfoldable pub is_preflight : Request → Bool
is_preflight r = not (str_eq (header "Origin" r) "") && str_eq r.method "OPTIONS"

unfoldable pub has_key : Middleware → Request → Bool
has_key m r =
    str_eq (header "X-OneX-Api-Key" r) m.api_key
    || str_eq (header "Authorization" r) (str_append "Bearer " m.api_key)

-- `wrap`
unfoldable pub wrap : ℕ → Request → Middleware → Outcome × Middleware
wrap now r m =
    let (allowed, limiter) = allow (remote_ip r) now m.limiter in
    let m' = record m { limiter = limiter } in
    if is_preflight r
    then (preflight, m)
    else if not allowed
    then (rate_limited, m')
    else if not (str_eq m.api_key "") && needs_api_key r && not (has_key m r)
    then (unauthorized, m')
    else (served, m')

-- What needs a key is handed on only with the key.
pub wrap-has_key :
    (now : ℕ) (r : Request) (m : Middleware)
    → m.api_key ≢ ""
    → needs_api_key r ≡ true
    → (wrap now r m).0 ≡ served
    → has_key m r ≡ true
unfolding wrap
wrap-has_key now r m secret needs done = ground (arith, eq_iff m.api_key "")
