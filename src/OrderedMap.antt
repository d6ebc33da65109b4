-- ===== src/OrderedMap.antt =====
-- `std::map` with uuids for keys: an association list in the order of its keys.
use state.Common.{
  ℕ, ◌<◌, ◌≤◌, ◌≡◌, refl, Bool, List, [], ◌∷◌, Option, none, some, map, arith, ltb, ◌==◌,
  if◌then◌else◌, is_some, not,
}

module _ {V : Type 0} where
  unfoldable pub find : ℕ → List (ℕ × V) → Option V
  find k [] = none
  find k ((j, v) ∷ m) = if j == k then some v else find k m

  -- The list after `emplace`, which leaves an entry with the key as it is.
  unfoldable pub put : ℕ → V → List (ℕ × V) → List (ℕ × V)
  put k v [] = (k, v) ∷ []
  put k v ((j, w) ∷ m) =
      if j == k then (j, w) ∷ m else (if ltb k j then (k, v) ∷ (j, w) ∷ m else (j, w) ∷ put k v m)

  -- `emplace` also says whether it inserted.
  unfoldable pub emplace : ℕ → V → List (ℕ × V) → List (ℕ × V) × Bool
  emplace k v m = (put k v m, not (is_some (find k m)))

  unfoldable pub erase : ℕ → List (ℕ × V) → List (ℕ × V)
  erase k [] = []
  erase k ((j, v) ∷ m) = if j == k then m else (j, v) ∷ erase k m

  abbrev pub values : List (ℕ × V) → List V
  values = map λ e. e.1

  -- Keys ascend, and all lie above a bound.
  abbrev pub Above : ℕ → List (ℕ × V) → Type 0
  Above b [] = Unit {0}
  Above b ((j, v) ∷ m) = (b < j) × Above j m

  abbrev pub IsAscending : List (ℕ × V) → Type 0
  IsAscending [] = Unit {0}
  IsAscending ((j, v) ∷ m) = Above j m

  find-none_of_Above : (b j : ℕ) (m : List (ℕ × V)) → Above b m → j ≤ b → find j m ≡ none
  unfolding find
  find-none_of_Above b j [] h l = refl
  find-none_of_Above b j ((i, w) ∷ m) h l = ground (arith, find-none_of_Above i j m h.1)

  Above-put : (b k : ℕ) (v : V) (m : List (ℕ × V)) → Above b m → b < k → Above b (put k v m)
  unfolding put
  Above-put b k v [] h l = (l, tt)
  Above-put b k v ((i, w) ∷ m) h l = ground (arith, Above-put i k v m h.1)

  Above-weaken : (b c : ℕ) (m : List (ℕ × V)) → Above c m → b ≤ c → Above b m
  Above-weaken b c [] h l = tt
  Above-weaken b c ((i, w) ∷ m) h l = (omega arith, h.1)

  Above-erase : (b k : ℕ) (m : List (ℕ × V)) → Above b m → Above b (erase k m)
  unfolding erase
  Above-erase b k [] h = tt
  Above-erase b k ((i, w) ∷ m) h = ground (arith, Above-erase i k m h.1, Above-weaken b i m h.1)

  pub put-IsAscending : (k : ℕ) (v : V) (m : List (ℕ × V)) → IsAscending m → IsAscending (put k v m)
  unfolding put
  put-IsAscending k v [] h = tt
  put-IsAscending k v ((i, w) ∷ m) h = ground (arith, Above-put i k v m h)

  Above-IsAscending : (b : ℕ) (m : List (ℕ × V)) → Above b m → IsAscending m
  Above-IsAscending b [] h = tt
  Above-IsAscending b ((i, w) ∷ m) h = h.1

  pub erase-IsAscending : (k : ℕ) (m : List (ℕ × V)) → IsAscending m → IsAscending (erase k m)
  unfolding erase
  erase-IsAscending k [] h = tt
  erase-IsAscending k ((i, w) ∷ m) h = ground (arith, Above-erase i k m h, Above-IsAscending i m h)

  -- An entry that is there stays; else `put` adds one.
  pub find-put :
      (k j : ℕ) (v : V) (m : List (ℕ × V))
      → IsAscending m
      → find j (put k v m)
        ≡ (if is_some (find j m) then find j m else (if k == j then some v else none))
  unfolding find put
  find-put k j v [] h = refl
  find-put k j v ((i, w) ∷ m) h = ground (
    arith,
    find-put k j v m (Above-IsAscending i m h),
    find-none_of_Above i j m h,
    find-none_of_Above i k m h,
  )

  pub find-erase :
      (k j : ℕ) (m : List (ℕ × V))
      → IsAscending m
      → find j (erase k m) ≡ (if k == j then none else find j m)
  unfolding find erase
  find-erase k j [] h = ground arith
  find-erase k j ((i, w) ∷ m) h =
      ground (arith, find-erase k j m (Above-IsAscending i m h), find-none_of_Above i j m h)
