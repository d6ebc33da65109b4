-- ===== src/Sample/Tables.antt =====
-- A multi-index container as one list, which every index traverses in the same order.
use state.Common.{
  ◌≡◌, refl, Bool, true, false, not, List, [], ◌∷◌, any, keep, first, length, Inserted, here,
  if◌then◌else◌, arith, Bool-cases, inl, inr,
}
use mathlib.Core.Bool.{false≢true}
use state.MultiIndex.{Spec, MultiIndex, has_key, clash}

module _ {E : Type 0} (s : Spec E) where
  abbrev pub insert : E → List E → List E × Bool
  insert e t = if any (clash s e) t then (t, false) else (e ∷ t, true)

  pub insert-accepts_lem : (e : E) (t : List E) → (insert e t).1 ≡ not (any (clash s e) t)
  insert-accepts_lem e t = ground arith

  pub insert-refused_lem : (e : E) (t : List E) → (insert e t).1 ≡ false → (insert e t).0 ≡ t
  insert-refused_lem e t h = ground arith

  pub insert-Inserted_lem :
      (e : E) (t : List E) → (insert e t).1 ≡ true → Inserted e t (insert e t).0
  insert-Inserted_lem e t h = elim (Bool-cases (any (clash s e) t)) [
    | inl met ↦ absurd (false≢true (ground arith))
    | inr new ↦ rw new here
  ]

  abbrev pub listed : MultiIndex s
  listed = record {
    Table = List E;
    empty = [];
    size = length;
    traverse = λ i t. t;
    insert = insert;
    find = λ i k t. first (keep (has_key s i k) t);
    equal_range = λ i k t. keep (has_key s i k) t;
    erase_range = λ i k t. keep (λ e. not (has_key s i k e)) t;
    traverse-empty = λ i. refl;
    size-length = λ i t. refl;
    count-traverse = λ i j p t. refl;
    insert-accepts = λ i. insert-accepts_lem;
    insert-refused = insert-refused_lem;
    insert-Inserted = λ i. insert-Inserted_lem;
    find-first = λ i k t. refl;
    equal_range-keep = λ i k t. refl;
    erase_range-keep = λ i j k t. refl;
  }
