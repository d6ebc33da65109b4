-- ===== src/MultiIndex.antt =====
-- Boost.MultiIndex as the program uses it. The library is not part of the repository: a container
-- is an interface over the specification of its indices, with the documented behaviour of each
-- operation as a law.
pub mod Laws
use state.Common.{
  ℕ, ◌≡◌, Bool, true, false, not, ◌&&◌, List, [], ◌∷◌, Option, any, count, keep, first, length,
  Inserted,
}

-- `indexed_by<…>`: for each tag the key, the equivalence of keys and whether the index is unique.
pub record Spec (E : Type 0) : Type 1 where
  pub Tag : Type 0
  pub tags : List Tag
  pub unique : Tag → Bool
  pub Key : Tag → Type 0
  pub key : (i : Tag) → E → Key i
  pub same : (i : Tag) → Key i → Key i → Bool

module _ {E : Type 0} (s : Spec E) where
  abbrev pub has_key : (i : s.Tag) → s.Key i → E → Bool
  has_key i k e = s.same i (s.key i e) k

  -- Two elements that one of the unique indices keeps apart.
  abbrev pub clash : E → E → Bool
  clash a b = any (λ i. s.unique i && s.same i (s.key i b) (s.key i a)) s.tags

  pub record MultiIndex : Type 1 where
    pub Table : Type 0
    pub empty : Table
    pub size : Table → ℕ
    -- The elements from `begin()` to `end()` of an index.
    pub traverse : s.Tag → Table → List E
    pub insert : E → Table → Table × Bool
    pub find : (i : s.Tag) → s.Key i → Table → Option E
    pub equal_range : (i : s.Tag) → s.Key i → Table → List E
    -- `erase` of all that `equal_range` finds.
    pub erase_range : (i : s.Tag) → s.Key i → Table → Table
    pub traverse-empty : (i : s.Tag) → traverse i empty ≡ []
    pub size-length : (i : s.Tag) (t : Table) → size t ≡ length (traverse i t)
    -- The indices hold the same elements.
    pub count-traverse :
        (i j : s.Tag) (p : E → Bool) (t : Table) → count p (traverse i t) ≡ count p (traverse j t)
    pub insert-accepts :
        (i : s.Tag) (e : E) (t : Table) → (insert e t).1 ≡ not (any (clash e) (traverse i t))
    pub insert-refused : (e : E) (t : Table) → (insert e t).1 ≡ false → (insert e t).0 ≡ t
    pub insert-Inserted :
        (i : s.Tag) (e : E) (t : Table)
        → (insert e t).1 ≡ true
        → Inserted e (traverse i t) (traverse i (insert e t).0)
    pub find-first : (i : s.Tag) (k : s.Key i) (t : Table) → find i k t ≡ first (equal_range i k t)
    pub equal_range-keep :
        (i : s.Tag) (k : s.Key i) (t : Table)
        → equal_range i k t ≡ keep (has_key i k) (traverse i t)
    pub erase_range-keep :
        (i j : s.Tag) (k : s.Key i) (t : Table)
        → traverse j (erase_range i k t) ≡ keep (λ e. not (has_key i k e)) (traverse j t)
