-- ===== src/RateLimiter.antt =====
-- `RecallRateLimiter` of heartwood/recall_service.py: a sliding window for each credential. Times and
-- windows are counted in ticks of the monotonic clock, `second` of them in a second. The code reads the
-- clock before it takes the lock, so the order in which calls are handled is an assumption of the
-- theorems that need it.
pub mod Window
pub mod Tracks
pub mod Bound
use heartwood_memory.Prelude.{
  ℕ, zero, suc, ◌+◌, ◌-◌, ◌/◌, max, Bool, true, false, leb, Option, none, some, List, [], ◌∷◌, ◌++◌,
  String, str_eq, length, is_empty, if◌then◌else◌, Result, ok, raise, index_error,
}

pub record Credential : Type 0 where
  pub token_digest : String
  pub rate_limit_requests : ℕ
  pub rate_limit_window : ℕ

-- `_hits`: for a token digest the times of its hits, oldest first, and their window.
abbrev pub Buckets : Type 0
Buckets = String → Option (List ℕ × ℕ)

-- `while hits and now - hits[0] >= window_s: hits.popleft()`
unfoldable pub drop_old : ℕ → ℕ → List ℕ → List ℕ
drop_old now window [] = []
drop_old now window (h ∷ hits) =
    let rest = drop_old now window hits in if leb window (now - h) then rest else h ∷ hits

unfoldable pub shrink : ℕ → Option (List ℕ × ℕ) → Option (List ℕ × ℕ)
unfolding drop_old
shrink now none = none
shrink now (some (hits, window)) =
    let left = drop_old now window hits in if is_empty left then none else some (left, window)

-- `_evict_expired`
unfoldable pub evict_expired : ℕ → Buckets → Buckets
unfolding shrink
evict_expired now buckets digest = shrink now (buckets digest)

abbrev pub hits_of : Option (List ℕ × ℕ) → List ℕ
hits_of none = []
hits_of (some (hits, window)) = hits

abbrev pub set_bucket : Buckets → String → List ℕ → ℕ → Buckets
set_bucket buckets digest hits window d = if str_eq d digest then some (hits, window) else buckets d

-- Whether the call is allowed, how many are left, and when to try again.
pub record Verdict : Type 0 where
  pub allowed : Bool
  pub remaining : ℕ
  pub retry_after : ℕ

-- `max(1, ceil(window_s - (now - hits[0])))`; `hits[0]` of no hits raises.
unfoldable pub retry_after : ℕ → ℕ → ℕ → List ℕ → Result ℕ
retry_after second now window [] = raise index_error
retry_after second now window (h ∷ hits) =
    ok (max 1 (((window - (now - h)) + (second - 1)) / second))

unfoldable pub refused : Credential → Buckets → List ℕ → Result ℕ → Result (Verdict × Buckets)
refused cred buckets live (raise e) = raise e
refused cred buckets live (ok after) = ok (
  record { allowed = false; remaining = 0; retry_after = after },
  set_bucket buckets cred.token_digest live cred.rate_limit_window,
)

unfoldable pub judged : ℕ → ℕ → Credential → Buckets → List ℕ → Result (Verdict × Buckets)
unfolding retry_after refused
judged second now cred buckets live =
    if leb cred.rate_limit_requests (length live)
    then refused cred buckets live (retry_after second now cred.rate_limit_window live)
    else ok (
      record {
        allowed = true;
        remaining = cred.rate_limit_requests - suc (length live);
        retry_after = 0;
      },
      set_bucket buckets cred.token_digest (live ++ now ∷ []) cred.rate_limit_window,
    )

unfoldable pub check : ℕ → ℕ → Credential → Buckets → Result (Verdict × Buckets)
unfolding evict_expired judged drop_old
check second now cred buckets =
    let kept = evict_expired now buckets in
    judged second now cred kept
      (drop_old now cred.rate_limit_window (hits_of (kept cred.token_digest)))
