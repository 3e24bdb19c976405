-- ===== src/RateLimiter/Window.antt =====
-- The sliding window of `RecallRateLimiter` in heartwood/recall_service.py against the history of the
-- calls that were allowed.
use heartwood_memory.Prelude.{
  ℕ, suc, ◌-◌, ◌≤◌, ◌≡◌, refl, inl, inr, true, false, leb, ltb, List, [], ◌∷◌, ◌++◌, arith, length,
  filter, All, All-append, Bool-cases,
}
use heartwood_memory.RateLimiter.{drop_old}

-- The hits that are still in the window at a time.
abbrev pub recent : ℕ → ℕ → List ℕ → List ℕ
recent now window hits = filter (λ h. ltb (now - h) window) hits

-- Oldest first, and none later than a time.
abbrev pub Ascending : List ℕ → Type 0
Ascending [] = Unit
Ascending (h ∷ hits) = All (λ x. h ≤ x) hits × Ascending hits

recent_old :
    (now window h : ℕ) (hits : List ℕ)
    → leb window (now - h) ≡ false
    → All (λ x. h ≤ x) hits
    → recent now window hits ≡ hits
recent_old now window h [] k a = refl
recent_old now window h (x ∷ hits) k a =
    let in_window : ltb (now - x) window ≡ true = ground (arith, k, a.0) in
    rw (in_window, recent_old now window h hits k a.1) refl

-- What is popped from the left is what has left the window.
pub drop_old-recent :
    (now window : ℕ) (hits : List ℕ)
    → Ascending hits
    → drop_old now window hits ≡ recent now window hits
unfolding drop_old
drop_old-recent now window [] a = refl
drop_old-recent now window (h ∷ hits) (after, a) = elim (Bool-cases (leb window (now - h))) [
  | inl old ↦
      let out : ltb (now - h) window ≡ false = ground (arith, old) in
      rw (old, out) (drop_old-recent now window hits a)
  | inr young ↦
      let within : ltb (now - h) window ≡ true = ground (arith, young) in
      rw (young, within, recent_old now window h hits young after) refl
]

-- Popping twice is popping once, at the later time.
pub drop_old-drop_old :
    (earlier now window : ℕ) (hits : List ℕ)
    → earlier ≤ now
    → drop_old now window (drop_old earlier window hits) ≡ drop_old now window hits
unfolding drop_old
drop_old-drop_old earlier now window [] le = refl
drop_old-drop_old earlier now window (h ∷ hits) le = elim (Bool-cases (leb window (earlier - h))) [
  | inr young ↦ rw young refl
  | inl old ↦
      let older : leb window (now - h) ≡ true = ground (arith, old, le) in
      rw (old, older) (drop_old-drop_old earlier now window hits le)
]

pub Ascending-append :
    (hits : List ℕ) (now : ℕ)
    → Ascending hits
    → All (λ x. x ≤ now) hits
    → Ascending (hits ++ now ∷ [])
Ascending-append [] now a le = (tt, tt)
Ascending-append (h ∷ hits) now (after, a) (le, les) =
    (All-append (λ x. h ≤ x) hits (now ∷ []) after (le, tt), Ascending-append hits now a les)

drop_old-young :
    (now window h : ℕ) (hits : List ℕ)
    → leb window (now - h) ≡ false
    → drop_old now window (h ∷ hits) ≡ h ∷ hits
unfolding drop_old
drop_old-young now window h hits young = rw young refl

pub drop_old-append :
    (now window : ℕ) (hits more : List ℕ)
    → drop_old now window (drop_old now window hits ++ more) ≡ drop_old now window (hits ++ more)
unfolding drop_old
drop_old-append now window [] more = refl
drop_old-append now window (h ∷ hits) more = elim (Bool-cases (leb window (now - h))) [
  | inr young ↦ rw young (drop_old-young now window h (hits ++ more) young)
  | inl old ↦ rw old (drop_old-append now window hits more)
]

pub length-recent_append :
    (now window : ℕ) (hits : List ℕ) (x : ℕ)
    → length (recent now window (hits ++ x ∷ [])) ≤ suc (length (recent now window hits))
length-recent_append now window [] x = ground arith
length-recent_append now window (h ∷ hits) x = elim (Bool-cases (ltb (now - h) window)) [
  | inl k ↦ rw k (omega (arith, length-recent_append now window hits x))
  | inr k ↦ rw k (length-recent_append now window hits x)
]

pub length-recent_later :
    (earlier now window : ℕ) (hits : List ℕ)
    → earlier ≤ now
    → length (recent now window hits) ≤ length (recent earlier window hits)
length-recent_later earlier now window [] le = omega arith
length-recent_later earlier now window (h ∷ hits) le = elim (Bool-cases (ltb (now - h) window)) [
  | inl k ↦
      let before : ltb (earlier - h) window ≡ true = ground (arith, k, le) in
      rw (k, before) (omega (arith, length-recent_later earlier now window hits le))
  | inr k ↦ elim (Bool-cases (ltb (earlier - h) window)) [
    | inl j ↦ rw (k, j) (omega (arith, length-recent_later earlier now window hits le))
    | inr j ↦ rw (k, j) (length-recent_later earlier now window hits le)
  ]
]
