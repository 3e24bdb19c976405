-- ===== src/RateLimiter/Tracks.antt =====
-- What a bucket of `RecallRateLimiter` in heartwood/recall_service.py holds, against the history of its
-- token.
use heartwood_memory.Prelude.{
  ℕ, suc, ◌⊎◌, ◌-◌, ◌≤◌, ◌≡◌, refl, sym, ◌∙◌, ap, inl, inr, true, false, leb, Option, none, some,
  List, [], ◌∷◌, ◌++◌, arith, length, is_empty, All, All-append, All-map, Bool-cases, ok,
  if◌then◌else◌,
}
use heartwood_memory.RateLimiter.{
  Credential, Buckets, drop_old, shrink, hits_of, set_bucket, Verdict, retry_after, refused, judged,
}
use heartwood_memory.RateLimiter.Window.{
  recent, Ascending, drop_old-drop_old, drop_old-append, Ascending-append, length-recent_append,
  length-recent_later,
}

abbrev pub WindowOf : ℕ → Option (List ℕ × ℕ) → Type 0
WindowOf window none = Unit
WindowOf window (some (hits, w)) = w ≡ window

-- The bucket of a digest holds what the history of its allowed calls has in the window.
abbrev pub Tracks : ℕ → ℕ → ℕ → Option (List ℕ × ℕ) → List ℕ → Type 0
Tracks limit window now bucket history =
    (drop_old now window (hits_of bucket) ≡ drop_old now window history)
    × WindowOf window bucket
    × Ascending history
    × All (λ h. h ≤ now) history
    × (length (recent now window history) ≤ limit)

bucket-kept :
    (window w : ℕ) (left : List ℕ)
    → w ≡ window
    → let bucket : Option (List ℕ × ℕ) = if is_empty left then none else some (left, w) in
      (hits_of bucket ≡ left) × WindowOf window bucket
bucket-kept window w [] same = (refl, tt)
bucket-kept window w (h ∷ hits) same = (refl, same)

shrink-hits :
    (now window : ℕ) (bucket : Option (List ℕ × ℕ))
    → WindowOf window bucket
    → (hits_of (shrink now bucket) ≡ drop_old now window (hits_of bucket))
      × WindowOf window (shrink now bucket)
unfolding shrink drop_old
shrink-hits now window none same = (refl, tt)
shrink-hits now window (some (hits, w)) same =
    let (left, is) = bucket-kept window w (drop_old now w hits) same in
    (left ∙ ap (λ x. drop_old now x hits) same, is)

pub later-Tracks :
    (limit window earlier now : ℕ) (bucket : Option (List ℕ × ℕ)) (history : List ℕ)
    → earlier ≤ now
    → Tracks limit window earlier bucket history
    → Tracks limit window now bucket history
later-Tracks limit window earlier now bucket history le (same, w, asc, past, few) = (
  sym (drop_old-drop_old earlier now window (hits_of bucket) le)
      ∙ ap (drop_old now window) same
      ∙ drop_old-drop_old earlier now window history le,
  w,
  asc,
  All-map (λ h. h ≤ earlier) (λ h. h ≤ now) history (λ h past-h. omega (arith, le, past-h)) past,
  omega (arith, few, length-recent_later earlier now window history le),
)

-- Time passes: a bucket is cut down to the window.
pub shrink-Tracks :
    (limit window earlier now : ℕ) (bucket : Option (List ℕ × ℕ)) (history : List ℕ)
    → earlier ≤ now
    → Tracks limit window earlier bucket history
    → Tracks limit window now (shrink now bucket) history
      × (hits_of (shrink now bucket) ≡ drop_old now window history)
shrink-Tracks limit window earlier now bucket history le tracks =
    let (hits, w) = shrink-hits now window bucket tracks.1 in
    let (same, _, asc, past, few) =
      later-Tracks limit window earlier now bucket history le tracks in
    let left : hits_of (shrink now bucket) ≡ drop_old now window history = hits ∙ same in
    (
      (
        ap (drop_old now window) left ∙ drop_old-drop_old now now window history (omega arith),
        w,
        asc,
        past,
        few,
      ),
      left,
    )

-- A call is allowed: it is added to the bucket and to the history.
pub allowed-Tracks :
    (limit window now : ℕ) (bucket : Option (List ℕ × ℕ)) (history live : List ℕ)
    → Tracks limit window now bucket history
    → live ≡ drop_old now window history
    → leb limit (length (recent now window history)) ≡ false
    → Tracks limit window now (some (live ++ now ∷ [], window)) (history ++ now ∷ [])
allowed-Tracks limit window now bucket history live (same, w, asc, past, few) is room = (
  ap (λ x. drop_old now window (x ++ now ∷ [])) is ∙ drop_old-append now window history (now ∷ []),
  refl,
  Ascending-append history now asc past,
  All-append (λ h. h ≤ now) history (now ∷ []) past (omega arith, tt),
  ground (arith, room, length-recent_append now window history now),
)

pub refused-Tracks :
    (limit window now : ℕ) (bucket : Option (List ℕ × ℕ)) (history live : List ℕ)
    → Tracks limit window now bucket history
    → live ≡ drop_old now window history
    → Tracks limit window now (some (live, window)) history
refused-Tracks limit window now bucket history live (same, w, asc, past, few) is = (
  ap (drop_old now window) is ∙ drop_old-drop_old now now window history (omega arith),
  refl,
  asc,
  past,
  few,
)

-- With a positive limit the time to wait is read from a bucket that is not empty.
retry_after-ok :
    (second now window limit : ℕ) (live : List ℕ)
    → 1 ≤ limit
    → leb limit (length live) ≡ true
    → (after : ℕ) × (retry_after second now window live ≡ ok after)
unfolding retry_after
retry_after-ok second now window limit [] pos full = absurd (ground (arith, pos, full))
retry_after-ok second now window limit (h ∷ hits) pos full = (_, refl)

module _ (second now : ℕ) (cred : Credential) (buckets : Buckets) (live : List ℕ) where
  abbrev pub Outcome : Verdict × Buckets → Type 0
  Outcome r =
      ((leb cred.rate_limit_requests (length live) ≡ true)
        × (r.0.allowed ≡ false)
        × (r.1 ≡ set_bucket buckets cred.token_digest live cred.rate_limit_window))
      ⊎ ((leb cred.rate_limit_requests (length live) ≡ false)
          × (r.0.allowed ≡ true)
          × (r.1 ≡ set_bucket buckets cred.token_digest (live ++ now ∷ []) cred.rate_limit_window))

  pub judged-ok :
      1 ≤ cred.rate_limit_requests
      → (r : Verdict × Buckets) × (judged second now cred buckets live ≡ ok r) × Outcome r
  unfolding judged refused
  judged-ok pos = elim (Bool-cases (leb cred.rate_limit_requests (length live))) [
    | inl full ↦
        let (after, wait) =
          retry_after-ok second now cred.rate_limit_window cred.rate_limit_requests live pos full in
        let r : Verdict × Buckets = (
          record { allowed = false; remaining = 0; retry_after = after },
          set_bucket buckets cred.token_digest live cred.rate_limit_window,
        ) in
        (r, rw (full, wait) refl, inl (full, refl, refl))
    | inr room ↦
        let r : Verdict × Buckets = (
          record {
            allowed = true;
            remaining = cred.rate_limit_requests - suc (length live);
            retry_after = 0;
          },
          set_bucket buckets cred.token_digest (live ++ now ∷ []) cred.rate_limit_window,
        ) in
        (r, rw room refl, inr (room, refl, refl))
  ]
