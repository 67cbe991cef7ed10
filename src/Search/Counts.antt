-- ===== src/Search/Counts.antt =====
-- The edits of a hand in searcher.go, count by count, and their undoing.
use go_mahjong.Common.{
  ℕ, zero, suc, ◌+◌, ◌-◌, ◌≤◌, ◌<◌, ◌≡◌, ◌∙◌, ap, true, ◌&&◌, [], ◌∷◌, arith, ltb, leb, ◌==◌,
  if◌then◌else◌, length, get_or-set, length-set, list_ext,
}
use go_mahjong.Search.{Hand34, count_at, sub_at, add_at, sub_run, add_run, has_run}

-- A tile that is there is in range.
pub count_at_in_range : (h : Hand34) (i : ℕ) → 0 < count_at h i → i < length h
count_at_in_range [] i p = absurd (omega arith)
count_at_in_range (x ∷ h) zero p = omega arith
count_at_in_range (x ∷ h) (suc i) p = omega (arith, count_at_in_range h i p)

pub count_at_eq : (h : Hand34) (i j : ℕ) → i ≡ j → count_at h i ≡ count_at h j
count_at_eq h i j e = ap (count_at h) e

pub count_at-sub_at :
    (h : Hand34) (i n k : ℕ)
    → i < length h
    → count_at (sub_at h i n) k ≡ count_at h k - (if i == k then n else 0)
unfolding sub_at
count_at-sub_at h i n k p = ground (arith, get_or-set h i k (count_at h i - n) 0, count_at_eq h i k)

pub count_at-add_at :
    (h : Hand34) (i n k : ℕ)
    → i < length h
    → count_at (add_at h i n) k ≡ count_at h k + (if i == k then n else 0)
unfolding add_at
count_at-add_at h i n k p = ground (arith, get_or-set h i k (count_at h i + n) 0, count_at_eq h i k)

pub length-sub_at : (h : Hand34) (i n : ℕ) → length (sub_at h i n) ≡ length h
unfolding sub_at
length-sub_at h i n = length-set h i _

pub length-add_at : (h : Hand34) (i n : ℕ) → length (add_at h i n) ≡ length h
unfolding add_at
length-add_at h i n = length-set h i _

pub length-sub_run : (h : Hand34) (i : ℕ) → length (sub_run h i) ≡ length h
unfolding sub_run
length-sub_run h i = simp length-sub_at

pub length-add_run : (h : Hand34) (i : ℕ) → length (add_run h i) ≡ length h
unfolding add_run
length-add_run h i = simp length-add_at

pub count_at-sub_run :
    (h : Hand34) (i k : ℕ)
    → i + 2 < length h
    → count_at (sub_run h i) k ≡ count_at h k - (if leb i k && ltb k (i + 3) then 1 else 0)
unfolding sub_run
count_at-sub_run h i k p =
    let g = sub_at h i 1 in
    let g' = sub_at g (i + 1) 1 in
    ground (
      arith,
      length-sub_at h i 1,
      length-sub_at g (i + 1) 1,
      count_at-sub_at h i 1 k,
      count_at-sub_at g (i + 1) 1 k,
      count_at-sub_at g' (i + 2) 1 k,
    )

pub count_at-add_run :
    (h : Hand34) (i k : ℕ)
    → i + 2 < length h
    → count_at (add_run h i) k ≡ count_at h k + (if leb i k && ltb k (i + 3) then 1 else 0)
unfolding add_run
count_at-add_run h i k p =
    let g = add_at h i 1 in
    let g' = add_at g (i + 1) 1 in
    ground (
      arith,
      length-add_at h i 1,
      length-add_at g (i + 1) 1,
      count_at-add_at h i 1 k,
      count_at-add_at g (i + 1) 1 k,
      count_at-add_at g' (i + 2) 1 k,
    )

-- Undoing the removal of a triplet, or of a run, gives the hand back.
pub restored :
    (h : Hand34) (i n : ℕ) → n ≤ count_at h i → i < length h → add_at (sub_at h i n) i n ≡ h
restored h i n q p = list_ext _ _ (length-add_at (sub_at h i n) i n ∙ length-sub_at h i n) λ k _.
    ground (
      arith,
      length-sub_at h i n,
      count_at-add_at (sub_at h i n) i n k,
      count_at-sub_at h i n k,
      count_at_eq h i k,
    )

pub has_run_counts :
    (h : Hand34) (i : ℕ)
    → has_run h i ≡ true
    → (0 < count_at h i) × (0 < count_at h (i + 1)) × (0 < count_at h (i + 2))
has_run_counts h i e = ground arith

pub run_tiles :
    (h : Hand34) (i k : ℕ)
    → has_run h i ≡ true
    → (if leb i k && ltb k (i + 3) then 1 else 0) ≤ count_at h k
run_tiles h i k e = ground (
  arith,
  has_run_counts h i e,
  count_at_eq h i k,
  count_at_eq h (i + 1) k,
  count_at_eq h (i + 2) k,
)

pub restored_run : (h : Hand34) (i : ℕ) → has_run h i ≡ true → add_run (sub_run h i) i ≡ h
restored_run h i e =
    let inside = count_at_in_range h (i + 2) (has_run_counts h i e).2 in
    list_ext _ _ (length-add_run (sub_run h i) i ∙ length-sub_run h i) λ k _. omega (
      arith,
      length-sub_run h i,
      count_at-add_run (sub_run h i) i k (omega (arith, length-sub_run h i)),
      count_at-sub_run h i k inside,
      run_tiles h i k e,
    )
