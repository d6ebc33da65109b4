-- ===== src/MultiIndex/Laws.antt =====
-- What follows from the documented behaviour of a multi-index container.
use state.Common.{
  ◌≡◌, refl, sym, ap, ◌∙◌, Bool, true, false, not, ◌||◌, ◌&&◌, List, [], ◌∷◌, none, some, arith,
  any, count, length, is_some, Bool-cases, inl, inr, keep, first, ◌==◌, Inserted, here, there,
  count-Inserted, keep-Inserted, keep-eq-nil, any-keep-not,
}
use state.MultiIndex.{Spec, MultiIndex, has_key}

module _ {ℓ} {A : Type ℓ} (p : A → Bool) where
  pub any-eq-count : (xs : List A) → any p xs ≡ not (count p xs == 0)
  any-eq-count [] = refl
  any-eq-count (x ∷ xs) = ground (arith, any-eq-count xs)

  -- A new element that fails the test changes nothing of what passes it.
  pub keep-Inserted_ne :
      {e : A} {xs ys : List A} → Inserted e xs ys → p e ≡ false → keep p ys ≡ keep p xs
  keep-Inserted_ne here h = rw h
  keep-Inserted_ne (there {x} i) h = rw (keep-Inserted_ne i h)

  pub any-Inserted : {e : A} {xs ys : List A} → Inserted e xs ys → any p ys ≡ (p e || any p xs)
  any-Inserted {e} {xs} {ys} i =
      ground (arith, any-eq-count xs, any-eq-count ys, count-Inserted p i)

  pub keep-keep-not :
      (q : A → Bool) (xs : List A)
      → ((x : A) → p x ≡ true → q x ≡ false)
      → keep p (keep (λ x. not (q x)) xs) ≡ keep p xs
  keep-keep-not q [] h = refl
  keep-keep-not q (x ∷ xs) h = ground (arith, h x, keep-keep-not q xs h)

  pub first-keep-none : (xs : List A) → any p xs ≡ false → first (keep p xs) ≡ none
  first-keep-none xs h = rw (keep-eq-nil p xs h)

  pub any-eq-length-keep : (xs : List A) → any p xs ≡ not (length (keep p xs) == 0)
  any-eq-length-keep [] = refl
  any-eq-length-keep (x ∷ xs) = ground (arith, any-eq-length-keep xs)

  pub is_some-first-keep : (xs : List A) → is_some (first (keep p xs)) ≡ any p xs
  is_some-first-keep [] = refl
  is_some-first-keep (x ∷ xs) = ground (arith, is_some-first-keep xs)

  pub any-keep : (q : A → Bool) (xs : List A) → any q (keep p xs) ≡ any (λ x. q x && p x) xs
  any-keep q [] = refl
  any-keep q (x ∷ xs) = ground (arith, any-keep q xs)

  pub any-imp :
      (q : A → Bool) (xs : List A)
      → ((x : A) → p x ≡ true → q x ≡ true)
      → any p xs ≡ true
      → any q xs ≡ true
  any-imp q [] h e = cc
  any-imp q (x ∷ xs) h e = ground (arith, h x, any-imp q xs h)

  pub any-ext : (q : A → Bool) (xs : List A) → ((x : A) → p x ≡ q x) → any p xs ≡ any q xs
  any-ext q [] h = refl
  any-ext q (x ∷ xs) h = ground (arith, h x, any-ext q xs h)

  pub keep-ext : (q : A → Bool) (xs : List A) → ((x : A) → p x ≡ q x) → keep p xs ≡ keep q xs
  keep-ext q [] h = refl
  keep-ext q (x ∷ xs) h = ground (arith, h x, keep-ext q xs h)

  pub any-and_not :
      (q : A → Bool) (xs : List A) → any p xs ≡ false → any q xs ≡ any (λ x. q x && not (p x)) xs
  any-and_not q [] h = refl
  any-and_not q (x ∷ xs) h = ground (arith, any-and_not q xs)

  pub any-and_right : (b : Bool) (xs : List A) → any (λ x. p x && b) xs ≡ (any p xs && b)
  any-and_right b [] = refl
  any-and_right b (x ∷ xs) = ground (arith, any-and_right b xs)

module _ {E : Type 0} {s : Spec E} (m : MultiIndex s) where
  open m use {
    Table, traverse, equal_range, insert, find, erase_range, insert-accepts, insert-refused,
    insert-Inserted, find-first, equal_range-keep, erase_range-keep, count-traverse,
  }

  pub find-keep :
      (i : s.Tag) (k : s.Key i) (t : Table)
      → find i k t ≡ first (keep (has_key s i k) (traverse i t))
  find-keep i k t = find-first i k t ∙ ap first (equal_range-keep i k t)

  -- Every index answers alike whether some element passes a test.
  pub any-traverse :
      (i j : s.Tag) (p : E → Bool) (t : Table) → any p (traverse i t) ≡ any p (traverse j t)
  any-traverse i j p t =
      any-eq-count p (traverse i t)
      ∙ ap (λ n. not (n == 0)) (count-traverse i j p t)
      ∙ sym (any-eq-count p (traverse j t))

  pub find-erase_range : (i : s.Tag) (k : s.Key i) (t : Table) → find i k (erase_range i k t) ≡ none
  find-erase_range i k t =
      rw (find-keep, erase_range-keep)
        (first-keep-none (has_key s i k) _ (any-keep-not (has_key s i k) (traverse i t)))

  pub find-erase_range_ne :
      (i j : s.Tag) (k : s.Key i) (l : s.Key j) (t : Table)
      → ((e : E) → has_key s j l e ≡ true → has_key s i k e ≡ false)
      → find j l (erase_range i k t) ≡ find j l t
  find-erase_range_ne i j k l t h =
      rw (find-keep j l (erase_range i k t), find-keep j l t, erase_range-keep i j k t)
        (ap first (keep-keep-not (has_key s j l) (has_key s i k) (traverse j t) h))

  pub find-insert_ne :
      (i : s.Tag) (k : s.Key i) (e : E) (t : Table)
      → has_key s i k e ≡ false
      → find i k (insert e t).0 ≡ find i k t
  find-insert_ne i k e t h = elim (Bool-cases (insert e t).1) [
    | inl new ↦
        rw (find-keep i k (insert e t).0, find-keep i k t)
          (ap first (keep-Inserted_ne (has_key s i k) (insert-Inserted i e t new) h))
    | inr old ↦ ap (find i k) (insert-refused e t old)
  ]

  -- An accepted element is found under its key, in an index where no older one has that key.
  pub find-insert_new :
      (i : s.Tag) (k : s.Key i) (e : E) (t : Table)
      → (insert e t).1 ≡ true
      → has_key s i k e ≡ true
      → any (has_key s i k) (traverse i t) ≡ false
      → find i k (insert e t).0 ≡ some e
  find-insert_new i k e t new has fresh =
      find-keep i k (insert e t).0
      ∙ ap first (keep-Inserted (has_key s i k) (insert-Inserted i e t new) fresh)
      ∙ rw has

  pub any-insert :
      (i : s.Tag) (p : E → Bool) (e : E) (t : Table)
      → (insert e t).1 ≡ true
      → any p (traverse i (insert e t).0) ≡ (p e || any p (traverse i t))
  any-insert i p e t new = any-Inserted p (insert-Inserted i e t new)

  pub is_some-find :
      (i : s.Tag) (k : s.Key i) (t : Table)
      → is_some (find i k t) ≡ any (has_key s i k) (traverse i t)
  is_some-find i k t =
      ap is_some (find-keep i k t) ∙ is_some-first-keep (has_key s i k) (traverse i t)

  pub range-is_some-find :
      (i : s.Tag) (k : s.Key i) (t : Table)
      → not (length (equal_range i k t) == 0) ≡ is_some (find i k t)
  range-is_some-find i k t =
      ap (λ xs. not (length xs == 0)) (equal_range-keep i k t)
      ∙ sym (any-eq-length-keep (has_key s i k) (traverse i t))
      ∙ sym (is_some-find i k t)
