-- ===== src/Api/Limit.antt =====
-- The rate limiter of internal/api/middleware.go over many requests.
use shiva_blockchain.Base.{
  ℕ, ◌≤◌, ◌<◌, String, ◌≡◌, refl, ap, ◌∙◌, inl, inr, true, none, List, [], ◌∷◌, ◌++◌, arith, eq_iff,
  leb, if◌then◌else◌, Bool-cases, length, length-append,
}
use shiva_blockchain.Assoc.Laws.{get_or-insert}
use shiva_blockchain.Api.{recent, allow, RateLimiter, Request, remote_ip}
use shiva_blockchain.Assoc.{Assoc, get_or, insert, lookup}

recent-recent :
    (w now later : ℕ) (l : List ℕ)
    → now ≤ later
    → recent w later (recent w now l) ≡ recent w later l
unfolding recent
recent-recent w now later [] h = refl
recent-recent w now later (t ∷ l) h = ground (arith, recent-recent w now later l h)

length-recent : (w now : ℕ) (l : List ℕ) → length (recent w now l) ≤ length l
unfolding recent
length-recent w now [] = omega arith
length-recent w now (t ∷ l) = ground (arith, length-recent w now l)

recent-snoc :
    (w now t : ℕ) (l : List ℕ)
    → recent w now (l ++ (t ∷ [])) ≡ recent w now l ++ recent w now (t ∷ [])
unfolding recent
recent-snoc w now t [] = refl
recent-snoc w now t (x ∷ l) = ground (arith, recent-snoc w now t l)

-- The accepted times of each key.
pub record Limited : Type 0 where
  pub limiter : RateLimiter
  pub log : Assoc (List ℕ)

-- A request of a key at a time, noted in the log if it is accepted.
unfoldable pub note : String → ℕ → Limited → Limited
note key now s =
    let (accepted, limiter) = allow key now s.limiter in
    record {
      limiter = limiter;
      log = if accepted then insert key (get_or [] key s.log ++ (now ∷ [])) s.log else s.log;
    }

unfoldable pub note_all : List (String × ℕ) → Limited → Limited
unfolding note
note_all [] s = s
note_all ((key, now) ∷ l) s = note_all l (note key now s)

-- The times of the requests do not fall.
abbrev pub Rising : ℕ → List (String × ℕ) → Type 0
Rising now [] = Unit
Rising now ((key, t) ∷ l) = (now ≤ t) × Rising t l

abbrev pub last_time : ℕ → List (String × ℕ) → ℕ
last_time now [] = now
last_time now ((key, t) ∷ l) = last_time t l

-- What the limiter keeps is enough to count the log from `now` on, and the count is in the limit.
record IsLimited (now : ℕ) (s : Limited) : Type 0 where
  same :
      (key : String) (later : ℕ)
      → now ≤ later
      → recent s.limiter.window later (get_or [] key s.limiter.counts)
        ≡ recent s.limiter.window later (get_or [] key s.log)
  within :
      (key : String) (later : ℕ)
      → now ≤ later
      → length (recent s.limiter.window later (get_or [] key s.log)) ≤ s.limiter.limit

module _ (key : String) (now before : ℕ) (s : Limited) (h : before ≤ now)
    (inv : IsLimited before s) where
  abbrev kept : List ℕ
  kept = recent s.limiter.window now (get_or [] key s.limiter.counts)

  abbrev logged : List ℕ
  logged = get_or [] key s.log

  -- The two lists agree where a time is added to both.
  same_after :
      (later : ℕ)
      → now ≤ later
      → recent s.limiter.window later (kept ++ (now ∷ []))
        ≡ recent s.limiter.window later (logged ++ (now ∷ []))
  same_after later k =
      rw
        (recent-snoc s.limiter.window later now kept, recent-snoc s.limiter.window later now logged)
        (ap (λ l. l ++ recent s.limiter.window later (now ∷ []))
          (recent-recent s.limiter.window now later (get_or [] key s.limiter.counts) k
            ∙ inv.same key later (omega arith)))

  within_after :
      (later : ℕ)
      → now ≤ later
      → length kept < s.limiter.limit
      → length (recent s.limiter.window later (logged ++ (now ∷ []))) ≤ s.limiter.limit
  within_after later k room =
      let w = s.limiter.window in
      rw (recent-snoc w later now logged) (
        omega (
          arith,
          length-append {0} (recent w later logged) (recent w later (now ∷ [])),
          length-recent w later (now ∷ []),
          length-recent w later (recent w now logged),
          ap (λ l. length {0} l) (recent-recent w now later logged k),
          ap (λ l. length {0} l) (inv.same key now h),
        ))

  note-IsLimited : IsLimited now (note key now s)
  unfolding note allow
  note-IsLimited = elim (Bool-cases (leb s.limiter.limit (length kept))) [
    | inl full ↦ record {
      same = λ k later le. ground (
        arith,
        full,
        eq_iff key k,
        get_or-insert [] key k kept s.limiter.counts,
        recent-recent s.limiter.window now later (get_or [] key s.limiter.counts),
        inv.same k later,
      );
      within = λ k later le. ground (arith, full, inv.within k later);
    }
    | inr room ↦ record {
      same = λ k later le. ground (
        arith,
        room,
        eq_iff key k,
        get_or-insert [] key k (kept ++ (now ∷ [])) s.limiter.counts,
        get_or-insert [] key k (logged ++ (now ∷ [])) s.log,
        same_after later,
        inv.same k later,
      );
      within = λ k later le. ground (
        arith,
        room,
        eq_iff key k,
        get_or-insert [] key k (logged ++ (now ∷ [])) s.log,
        within_after later,
        inv.within k later,
      );
    }
  ]

note_all-IsLimited :
    (calls : List (String × ℕ)) (now : ℕ) (s : Limited)
    → Rising now calls
    → IsLimited now s
    → IsLimited (last_time now calls) (note_all calls s)
unfolding note_all
note_all-IsLimited [] now s rises inv = inv
note_all-IsLimited ((key, t) ∷ l) now s (le, rises) inv =
    note_all-IsLimited l t (note key t s) rises (note-IsLimited key t now s le inv)

-- A limiter before its first request.
abbrev pub fresh : ℕ → ℕ → Limited
fresh limit window = record {
  limiter = record { limit = limit; window = window; counts = [] };
  log = [];
}

fresh-IsLimited : (limit window : ℕ) → IsLimited 0 (fresh limit window)
unfolding recent get_or lookup
fresh-IsLimited limit window = record {
  same = λ key later le. refl;
  within = λ key later le. omega arith;
}

settings-note_all :
    (calls : List (String × ℕ)) (s : Limited)
    → ((note_all calls s).limiter.limit ≡ s.limiter.limit)
      × ((note_all calls s).limiter.window ≡ s.limiter.window)
unfolding note_all note allow
settings-note_all [] s = (refl, refl)
settings-note_all ((key, t) ∷ l) s = ground (arith, settings-note_all l (note key t s))

-- Over any requests in the order of their times, whatever their keys: of the requests of one key that
-- are accepted, at most `limit` lie in the window before any time from the last request on.
pub accepted_within_limit :
    (limit window : ℕ) (calls : List (String × ℕ)) (key : String) (later : ℕ)
    → Rising 0 calls
    → last_time 0 calls ≤ later
    → length (recent window later (get_or [] key (note_all calls (fresh limit window)).log)) ≤ limit
accepted_within_limit limit window calls key later rises le =
    let done = note_all calls (fresh limit window) in
    let kept = settings-note_all calls (fresh limit window) in
    let inv =
      note_all-IsLimited calls 0 (fresh limit window) rises (fresh-IsLimited limit window) in
    let counted = λ (w : ℕ). length (recent w later (get_or [] key done.log)) in
    omega (arith, inv.within key later le, kept.0, ap counted kept.1)

-- A request with a key that was not seen before is accepted whatever happened before; the key is the
-- first part of a header that the client sends.
pub allow_unseen :
    (r : Request) (now : ℕ) (rl : RateLimiter)
    → 0 < rl.limit
    → lookup (remote_ip r) rl.counts ≡ none
    → (allow (remote_ip r) now rl).0 ≡ true
unfolding allow get_or recent
allow_unseen r now rl some_room unseen = ground (arith, unseen)
