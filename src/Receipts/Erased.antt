-- ===== src/Receipts/Erased.antt =====
-- What a passing check of the store shows.
use heartwood_memory.Prelude.{
  ◌≡◌, ◌↔◌, refl, Bool, false, ◌||◌, Option, none, some, List, [], ◌∷◌, String, arith, All, any,
  elem, filter,
}
use heartwood_memory.Keys.{KeyRow, same_key, shredded}
use heartwood_memory.Keys.Lifecycle.{iter_keys}
use heartwood_memory.Keys.Lifecycle.Proof.{IsWrapped}
use heartwood_memory.Store.{Store}
use heartwood_memory.Store.Purge.{is_named, is_lineage_of}
use heartwood_memory.Receipts.{ErasureClaim}

pub any_iff :
    {A : Type 0} (p : A → Bool) (xs : List A) → (any p xs ≡ false) ↔ All (λ x. p x ≡ false) xs
any_iff p [] = (λ h. tt, λ h. refl)
any_iff p (x ∷ xs) = (
  (λ h. (ground (arith, h), (any_iff p xs).0 (ground (arith, h)))),
  (λ h. ground (arith, h.0, (any_iff p xs).1 h.1)),
)

-- The key of the subject is one tombstone.
pub record HasTombstone (keys : List KeyRow) (tenant subject : String) : Type 0 where
  pub row : KeyRow
  pub is_sole : filter (same_key tenant subject) keys ≡ row ∷ []
  pub is_dead : row.state ≡ shredded
  pub is_empty : row.dek ≡ none

-- With the root gone, no living subject of the tenant has a raw key.
abbrev pub RootGone : Store → String → Option Bool → Type 0
RootGone s tenant (some false) = All IsWrapped (iter_keys s.keys tenant)
RootGone s tenant _ = Unit

-- The store bears out what the receipt claims.
pub record IsErasedStore (r : ErasureClaim) (s : Store) (root_present : Option Bool) : Type 0 where
  pub tombstone : HasTombstone s.keys r.tenant r.subject_id
  pub memories : All (λ m. elem m.id r.purged_memory_ids ≡ false) s.memories
  pub edges :
      All
        (λ e. (elem e.child r.purged_memory_ids || elem e.parent r.purged_memory_ids) ≡ false)
        s.edges
  pub unnamed : All (λ m. is_named r.tenant r.subject_id m ≡ false) s.memories
  pub lineage : All (λ l. is_lineage_of r.tenant r.subject_id l ≡ false) s.lineage
  pub artifacts : All (λ l. elem l.artifact_id r.purged_memory_ids ≡ false) s.lineage
  pub root : RootGone s r.tenant root_present

module _ (r : ErasureClaim) (s : Store) (root_present : Option Bool) where
  abbrev LineageClear : Type 0
  LineageClear =
      All (λ l. is_lineage_of r.tenant r.subject_id l ≡ false) s.lineage
      × (All (λ l. elem l.artifact_id r.purged_memory_ids ≡ false) s.lineage
          × RootGone s r.tenant root_present)

  abbrev RowsClear : Type 0
  RowsClear =
      All (λ m. elem m.id r.purged_memory_ids ≡ false) s.memories
      × (All (λ e. (elem e.child r.purged_memory_ids || elem e.parent r.purged_memory_ids) ≡ false)
            s.edges
          × (All (λ m. is_named r.tenant r.subject_id m ≡ false) s.memories × LineageClear))
