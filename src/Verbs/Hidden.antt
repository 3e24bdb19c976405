-- ===== src/Verbs/Hidden.antt =====
-- What `set_indexed` of heartwood/client.py hides is in no recall.
use heartwood_memory.Prelude.{
  ℕ, ◌≤◌, ◌≡◌, refl, sym, subst, ap, ◌∙◌, inl, inr, Bool, true, false, some, List, [], ◌∷◌, String,
  arith, str_eq, str_eq_iff, elem, count_p, All, All-of_In, All-In, In, ==_iff, Bool-cases, Result,
  ok, >>=-eq-ok, ok_injective,
}
use heartwood_memory.Envelope.{Meta}
use heartwood_memory.Policy.{Principal}
use heartwood_memory.Audit.{Codec, Value}
use heartwood_memory.Audit.Chain.{append}
use heartwood_memory.Retirement.{get_meta}
use heartwood_memory.Recall.{Filters, recall_view}
use heartwood_memory.Recall.View.{recall_view_iff, recall_view-IsRecallable}
use heartwood_memory.Store.{Store, update_where}
use heartwood_memory.Store.Updates.{is_indexed, update_indexed}
use heartwood_memory.Verbs.{Caches, without, dropped, owned, changed, set_indexed}
use heartwood_memory.Verbs.Moved.{changed-ok}

-- A row with this id is not indexed.
abbrev IsHidden : String → Meta → Type 0
IsHidden id m = str_eq m.id id ≡ true → m.indexed ≡ false

module _ (id : String) (from : Bool) where
  fewer_indexed :
      (rows : List Meta)
      → count_p (is_indexed id from) rows ≤ count_p (λ (m : Meta). str_eq m.id id) rows
  fewer_indexed [] = omega arith
  fewer_indexed (m ∷ rows) =
      let rest = fewer_indexed rows in
      elim (Bool-cases (str_eq m.id id)) [
        | inl e ↦ rw e (ground (arith, rest))
        | inr e ↦ rw e (omega (arith, rest))
      ]

  -- Where each row with the id is updated, none is left that is indexed.
  updated-IsHidden :
      (rows : List Meta)
      → count_p (λ (m : Meta). str_eq m.id id) rows ≤ count_p (is_indexed id from) rows
      → All
          (IsHidden id)
          (update_where (is_indexed id from) (λ m. record m { indexed = false }) rows)
  updated-IsHidden [] h = tt
  updated-IsHidden (m ∷ rows) h =
      let few = fewer_indexed rows in
      elim (Bool-cases (is_indexed id from m)) [
        | inl e ↦ rw e (λ k. refl, updated-IsHidden rows (ground (arith, h, e)))
        | inr e ↦ elim (Bool-cases (str_eq m.id id)) [
          | inl k ↦ absurd (ground (arith, h, e, k, few))
          | inr k ↦ rw e (λ q. cc, updated-IsHidden rows (ground (arith, h, e, k)))
        ]
      ]

pub without-elem : (id : String) (ids : List String) → elem id (without id ids) ≡ false
without-elem id [] = refl
without-elem id (x ∷ ids) = elim (Bool-cases (str_eq x id)) [
  | inl e ↦ rw e (without-elem id ids)
  | inr e ↦
      let other : str_eq id x ≡ false = ground (arith, e, str_eq_iff x id, str_eq_iff id x) in
      rw (e, other) (without-elem id ids)
]

module _ (c : Codec) (now t u : Store) (caches k : Caches) (actor tenant : String)
    (detail : Bool → Bool → Value) (ts : ℕ) (id : String) where
  abbrev logged : Bool → Store
  logged from = record u {
    log = append c u.log tenant actor "index_state" id (detail from false) ts;
  }

  committed-IsHidden :
      (from : Bool)
      → changed (update_indexed now id false from) ≡ ok u
      → ◌≡◌ {A = Result (Store × Caches)} (ok (logged from, dropped false id caches)) (ok (t, k))
      → count_p (λ (m : Meta). str_eq m.id id) now.memories ≤ 1
      → All (IsHidden id) t.memories
        × (elem id k.texts ≡ false)
        × (elem id k.tokens ≡ false)
        × (k.corpora ≡ caches.corpora)
  unfolding update_indexed
  committed-IsHidden from done last single =
      let (one, same) = changed-ok (update_indexed now id false from) u done in
      let end = ok_injective (logged from, dropped false id caches) (t, k) last in
      let count : count_p (is_indexed id from) now.memories ≡ 1 =
        (==_iff (count_p (is_indexed id from) now.memories) 1).0 one in
      let rows : update_where (is_indexed id from) (λ m. record m { indexed = false }) now.memories
          ≡ t.memories =
        ap (λ (x : Store). x.memories) same ∙ ap (λ (x : Store × Caches). x.0.memories) end in
      let left : dropped false id caches ≡ k = ap (λ (x : Store × Caches). x.1) end in
      (
        subst (λ (l : List Meta). All (IsHidden id) l) rows
            (updated-IsHidden id from now.memories (omega (arith, single, count))),
        ap (λ (x : Caches). elem id x.texts) (sym left) ∙ without-elem id caches.texts,
        ap (λ (x : Caches). elem id x.tokens) (sym left) ∙ without-elem id caches.tokens,
        ap (λ (x : Caches). x.corpora) (sym left),
      )

set_indexed-IsHidden :
    (c : Codec) (meanwhile : Store → Store) (s t : Store) (caches k : Caches)
    (tenant actor : String) (detail : Bool → Bool → Value) (ts : ℕ) (id : String)
    → set_indexed c meanwhile s caches tenant actor (some false) detail ts id ≡ ok (t, k)
    → count_p (λ (m : Meta). str_eq m.id id) (meanwhile s).memories ≤ 1
    → All (IsHidden id) t.memories
      × (elem id k.texts ≡ false)
      × (elem id k.tokens ≡ false)
      × (k.corpora ≡ caches.corpora)
unfolding set_indexed
set_indexed-IsHidden c meanwhile s t caches k tenant actor detail ts id h single =
    let (m, found, h1) = >>=-eq-ok (owned tenant (get_meta s.memories id)) _ h in
    let (u, done, last) =
      >>=-eq-ok (changed (update_indexed (meanwhile s) id false m.indexed)) _ h1 in
    committed-IsHidden c (meanwhile s) t u caches k actor tenant detail ts id m.indexed done last
      single

-- Once `set_indexed` has taken an id out of the index, with one row of that id at most in the store in
-- which it is committed and whatever else other processes did before, no query of any principal, with
-- any filters, may rank a row of that id. The text cache and the token cache of the process have no
-- entry for it; the corpora of the third cache are left as they were.
pub set_indexed-hides :
    (c : Codec) (meanwhile : Store → Store) (s t : Store) (caches k : Caches)
    (tenant actor : String) (detail : Bool → Bool → Value) (ts : ℕ) (id : String) (now : ℕ)
    (p : Principal) (f : Filters) (vs : List Meta) (lag : ℕ)
    → set_indexed c meanwhile s caches tenant actor (some false) detail ts id ≡ ok (t, k)
    → count_p (λ (m : Meta). str_eq m.id id) (meanwhile s).memories ≤ 1
    → recall_view now p f t.memories ≡ ok (vs, lag)
    → All (λ (m : Meta). str_eq m.id id ≡ false) vs
      × (elem id k.texts ≡ false)
      × (elem id k.tokens ≡ false)
      × (k.corpora ≡ caches.corpora)
set_indexed-hides c meanwhile s t caches k tenant actor detail ts id now p f vs lag h single asked =
    let (hidden, texts, tokens, corpora) =
      set_indexed-IsHidden c meanwhile s t caches k tenant actor detail ts id h single in
    (
      All-of_In (λ (m : Meta). str_eq m.id id ≡ false) vs (not_ranked hidden),
      texts,
      tokens,
      corpora,
    )
  where
    not_ranked : All (IsHidden id) t.memories → (m : Meta) → In m vs → str_eq m.id id ≡ false
    not_ranked hidden m k = elim (Bool-cases (str_eq m.id id)) [
      | inr e ↦ e
      | inl e ↦
          let (included, hide, i, j, rows) = recall_view_iff now p f t.memories vs lag asked in
          let (there, _, _) = (rows m).0 k in
          let (_, (_, _, shown)) = recall_view-IsRecallable now p f t.memories vs lag m asked k in
          cc (shown.is_indexed, All-In (IsHidden id) t.memories m hidden there e)
    ]
