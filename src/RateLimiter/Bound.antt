-- ===== src/RateLimiter/Bound.antt =====
-- No window of `RecallRateLimiter` in heartwood/recall_service.py holds more calls than its limit.
use heartwood_memory.Prelude.{
  ℕ, ◌≤◌, ◌≡◌, refl, ◌∙◌, ap, inl, inr, Bool, true, false, ◌&&◌, leb, ltb, none, some, List, [],
  ◌∷◌, ◌++◌, String, arith, str_eq, str_eq_iff, length, Bool-cases, Result, ok, ◌>>=◌,
  if◌then◌else◌,
}
use heartwood_memory.RateLimiter.{
  Credential, Buckets, drop_old, evict_expired, hits_of, set_bucket, Verdict, check,
}
use heartwood_memory.RateLimiter.Window.{recent, drop_old-recent}
use heartwood_memory.RateLimiter.Tracks.{
  Tracks, later-Tracks, shrink-Tracks, allowed-Tracks, refused-Tracks, Outcome, judged-ok,
}

-- The history of a digest after a call: the time of the call is added if it was allowed.
abbrev pub grown : String → Credential → ℕ → Bool → List ℕ → List ℕ
grown digest cred now allowed history =
    if allowed && str_eq digest cred.token_digest then history ++ now ∷ [] else history

-- The calls of the digest carry this limit and window.
abbrev pub Carries : String → ℕ → ℕ → Credential → Type 0
Carries digest limit window cred =
    str_eq digest cred.token_digest ≡ true
    → (cred.rate_limit_requests ≡ limit) × (cred.rate_limit_window ≡ window)

module _ (digest : String) (second limit window now : ℕ) (cred : Credential) (kept : Buckets)
    (history : List ℕ) where
  -- What the call's own bucket has in its window.
  abbrev live_hits : List ℕ
  live_hits = drop_old now cred.rate_limit_window (hits_of (kept cred.token_digest))

  abbrev IsFollowed : Verdict × Buckets → Type 0
  IsFollowed r =
      Tracks limit window now (r.1 digest) (grown digest cred now r.0.allowed history)
      × (str_eq digest cred.token_digest ≡ true
          → r.0.allowed ≡ ltb (length (recent now window history)) limit)

  others-IsFollowed :
      (r : Verdict × Buckets) (hits : List ℕ)
      → str_eq digest cred.token_digest ≡ false
      → Tracks limit window now (kept digest) history
      → r.1 ≡ set_bucket kept cred.token_digest hits cred.rate_limit_window
      → IsFollowed r
  others-IsFollowed r hits other tracks same =
      let bucket : r.1 digest ≡ kept digest = ap (λ b. b digest) same ∙ rw other refl in
      let unchanged : grown digest cred now r.0.allowed history ≡ history =
        others_grown r.0.allowed in
      (rw (bucket, unchanged, Tracks) tracks, λ mine. absurd (ground (arith, mine, other)))
    where
      others_grown : (allowed : Bool) → grown digest cred now allowed history ≡ history
      others_grown true = rw other refl
      others_grown false = refl

  own-IsFollowed :
      (r : Verdict × Buckets)
      → str_eq digest cred.token_digest ≡ true
      → (cred.rate_limit_requests ≡ limit) × (cred.rate_limit_window ≡ window)
      → Tracks limit window now (kept digest) history
      → Outcome second now cred kept live_hits r
      → IsFollowed r
  own-IsFollowed r mine (its_limit, its_window) tracks outcome =
      let own : digest ≡ cred.token_digest = (str_eq_iff digest cred.token_digest).0 mine in
      let live : live_hits ≡ drop_old now window history =
        rw (← own) (ap (λ w. drop_old now w (hits_of (kept digest))) its_window ∙ tracks.0) in
      let size : length live_hits ≡ length (recent now window history) =
        ap length (live ∙ drop_old-recent now window history tracks.2) in
      elim outcome [
        | inl (full, stopped, put) ↦
            let bucket : r.1 digest ≡ some (live_hits, window) =
              ap (λ b. b digest) put ∙ rw (mine, its_window) refl in
            let full' : leb limit (length (recent now window history)) ≡ true =
              rw (← size, ← its_limit) full in
            (
              rw (bucket, stopped)
                  (refused-Tracks limit window now (kept digest) history live_hits tracks live),
              λ _. ground (arith, stopped, full'),
            )
        | inr (room, passed, put) ↦
            let bucket : r.1 digest ≡ some (live_hits ++ now ∷ [], window) =
              ap (λ b. b digest) put ∙ rw (mine, its_window) refl in
            let room' : leb limit (length (recent now window history)) ≡ false =
              rw (← size, ← its_limit) room in
            (
              rw (bucket, passed, mine)
                  (allowed-Tracks limit window now (kept digest) history live_hits tracks live
                    room'),
              λ _. ground (arith, passed, room'),
            )
      ]

  after-IsFollowed :
      (r : Verdict × Buckets)
      → Carries digest limit window cred
      → Tracks limit window now (kept digest) history
      → Outcome second now cred kept live_hits r
      → IsFollowed r
  after-IsFollowed r carries tracks outcome = elim (Bool-cases (str_eq digest cred.token_digest)) [
    | inl mine ↦ own-IsFollowed r mine (carries mine) tracks outcome
    | inr other ↦ elim outcome [
      | inl (full, stopped, put) ↦ others-IsFollowed r live_hits other tracks put
      | inr (room, passed, put) ↦ others-IsFollowed r (live_hits ++ now ∷ []) other tracks put
    ]
  ]

-- A sequence of calls, with the history of one digest.
abbrev pub Calls : Type 0
Calls = List (Credential × ℕ)

unfoldable pub serve : ℕ → String → Calls → Buckets → List ℕ → Result (Buckets × List ℕ)
serve second digest [] buckets history = ok (buckets, history)
serve second digest ((cred, now) ∷ calls) buckets history = do
  r ← check second now cred buckets
  serve second digest calls r.1 (grown digest cred now r.0.allowed history)

-- The limiter at the start.
abbrev pub no_buckets : Buckets
no_buckets d = none

-- The calls come in order of time, their limits are positive, and those of the digest have its
-- limit and window.
abbrev pub IsServable : String → ℕ → ℕ → ℕ → Calls → ℕ → Type 0
IsServable digest limit window earlier [] last = earlier ≤ last
IsServable digest limit window earlier ((cred, now) ∷ calls) last =
    (earlier ≤ now)
    × (1 ≤ cred.rate_limit_requests)
    × Carries digest limit window cred
    × IsServable digest limit window now calls last

module _ (second : ℕ) (digest : String) (limit window : ℕ) where
  check-IsFollowed :
      (earlier now : ℕ) (cred : Credential) (buckets : Buckets) (history : List ℕ)
      → earlier ≤ now
      → 1 ≤ cred.rate_limit_requests
      → Carries digest limit window cred
      → Tracks limit window earlier (buckets digest) history
      → (r : Verdict × Buckets) × (check second now cred buckets ≡ ok r)
        × IsFollowed digest second limit window now cred (evict_expired now buckets) history r
  unfolding check evict_expired
  check-IsFollowed earlier now cred buckets history le pos carries tracks =
      let kept = evict_expired now buckets in
      let (cut, hits) = shrink-Tracks limit window earlier now (buckets digest) history le tracks in
      let (r, is, outcome) =
        judged-ok second now cred kept
          (drop_old now cred.rate_limit_window (hits_of (kept cred.token_digest))) pos in
      (
        r,
        is,
        after-IsFollowed digest second limit window now cred kept history r carries cut outcome,
      )

  serve-Tracks :
      (calls : Calls) (earlier last : ℕ) (buckets : Buckets) (history : List ℕ)
      → IsServable digest limit window earlier calls last
      → Tracks limit window earlier (buckets digest) history
      → (s : Buckets × List ℕ) × (serve second digest calls buckets history ≡ ok s)
        × Tracks limit window last (s.0 digest) s.1
  unfolding serve
  serve-Tracks [] earlier last buckets history h tracks = (
    (buckets, history),
    refl,
    later-Tracks limit window earlier last (buckets digest) history h tracks,
  )
  serve-Tracks ((cred, now) ∷ calls) earlier last buckets history (le, pos, carries, rest) tracks =
      let (r, is, followed) =
        check-IsFollowed earlier now cred buckets history le pos carries tracks in
      let (s, done, final) =
        serve-Tracks calls now last r.1 (grown digest cred now r.0.allowed history) rest
          followed.0 in
      (s, rw is done, final)

  -- Starting with no hits, every sequence of calls in order of time, each with a limit of at least 1,
  -- and those of one token all with one limit and one window, is served without an error; and within
  -- the window that ends at a time no earlier than the last call, the calls allowed to that token are
  -- at most its limit, whatever calls other tokens made in between.
  pub serve_within_limit :
      (calls : Calls) (last : ℕ)
      → IsServable digest limit window 0 calls last
      → (s : Buckets × List ℕ) × (serve second digest calls no_buckets [] ≡ ok s)
        × (length (recent last window s.1) ≤ limit)
  serve_within_limit calls last h =
      let (s, done, tracks) =
        serve-Tracks calls 0 last no_buckets [] h (refl, tt, tt, tt, omega arith) in
      (s, done, tracks.4)

  -- After any sequence of calls in order of time, each with a positive limit, the next call of a
  -- token with a positive limit gets a verdict, and is allowed exactly if fewer calls than the
  -- limit were allowed to the token within the window that ends at the call.
  pub check_exact :
      (calls : Calls) (last now : ℕ) (cred : Credential)
      → IsServable digest limit window 0 calls last
      → last ≤ now
      → 1 ≤ cred.rate_limit_requests
      → str_eq digest cred.token_digest ≡ true
      → (cred.rate_limit_requests ≡ limit) × (cred.rate_limit_window ≡ window)
      → (s : Buckets × List ℕ) × (r : Verdict × Buckets) × (serve second digest calls no_buckets []
          ≡ ok s)
        × (check second now cred s.0 ≡ ok r)
        × (r.0.allowed ≡ ltb (length (recent now window s.1)) limit)
  check_exact calls last now cred h le pos mine its =
      let (s, done, tracks) =
        serve-Tracks calls 0 last no_buckets [] h (refl, tt, tt, tt, omega arith) in
      let (r, is, followed) = check-IsFollowed last now cred s.0 s.1 le pos (λ _. its) tracks in
      (s, r, done, is, followed.1 mine)
