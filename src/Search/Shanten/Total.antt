-- ===== src/Search/Shanten/Total.antt =====
-- How the edits of `dfsNormalShanten` change the number of tiles, and that undoing them restores the hand.
use go_mahjong.Common.{
  ℕ, zero, suc, ◌+◌, ◌-◌, ◌≤◌, ◌<◌, ◌≡◌, ◌∙◌, true, [], ◌∷◌, arith, length, set, list_ext,
}
use go_mahjong.Search.{Hand34, count_at, sub_at, add_at, sub_run, has_run}
use go_mahjong.Search.Counts.{
  count_at_in_range, count_at_eq, count_at-sub_at, count_at-add_at, length-sub_at, length-add_at,
  has_run_counts,
}
use go_mahjong.Search.Shanten.{sub_two, add_two, has_two, tile_count}

tile_count-set :
    (h : Hand34) (i v : ℕ) → i < length h → tile_count (set h i v) + count_at h i ≡ tile_count h + v
tile_count-set [] i v p = absurd (omega arith)
tile_count-set (x ∷ h) zero v p = omega arith
tile_count-set (x ∷ h) (suc i) v p = omega (arith, tile_count-set h i v (omega arith))

pub tile_count-sub_at :
    (h : Hand34) (i n : ℕ) → 0 < n → n ≤ count_at h i → tile_count (sub_at h i n) + n ≡ tile_count h
unfolding sub_at
tile_count-sub_at h i n z p =
    omega (arith, tile_count-set h i (count_at h i - n) (count_at_in_range h i (omega arith)))

pub tile_count-sub_run :
    (h : Hand34) (i : ℕ) → has_run h i ≡ true → tile_count (sub_run h i) + 3 ≡ tile_count h
unfolding sub_run
tile_count-sub_run h i e =
    let (a, b, c) = has_run_counts h i e in
    let at = count_at_in_range h in
    let g = sub_at h i 1 in
    let g' = sub_at g (i + 1) 1 in
    let b' : 1 ≤ count_at g (i + 1) = ground (arith, count_at-sub_at h i 1 (i + 1) (at i a)) in
    let c' : 1 ≤ count_at g' (i + 2) = ground (
      arith,
      count_at-sub_at h i 1 (i + 2) (at i a),
      count_at-sub_at g (i + 1) 1 (i + 2) (count_at_in_range g (i + 1) b'),
    ) in
    omega (
      arith,
      tile_count-sub_at h i 1 (omega arith) a,
      tile_count-sub_at g (i + 1) 1 (omega arith) b',
      tile_count-sub_at g' (i + 2) 1 (omega arith) c',
    )

module _ (h : Hand34) (i j : ℕ) (apart : i < j) (e : has_two h i j ≡ true) where
  two_tiles : (1 ≤ count_at h i) × (1 ≤ count_at (sub_at h i 1) j)
  two_tiles =
      let a : 1 ≤ count_at h i = ground arith in
      let b : 1 ≤ count_at h j = ground arith in
      (a, ground (arith, count_at-sub_at h i 1 j (count_at_in_range h i a)))

  pub tile_count-sub_two : tile_count (sub_two h i j) + 2 ≡ tile_count h
  unfolding sub_two
  tile_count-sub_two =
      let (a, b) = two_tiles in
      omega (
        arith,
        tile_count-sub_at h i 1 (omega arith) a,
        tile_count-sub_at (sub_at h i 1) j 1 (omega arith) b,
      )

  pub count_at-sub_two : (k : ℕ) → count_at (sub_two h i j) k ≤ count_at h k
  unfolding sub_two
  count_at-sub_two k =
      let (a, b) = two_tiles in
      let in_h = count_at_in_range h i a in
      let in_g = count_at_in_range (sub_at h i 1) j b in
      omega (arith, count_at-sub_at h i 1 k in_h, count_at-sub_at (sub_at h i 1) j 1 k in_g)

  pub length-sub_two : length (sub_two h i j) ≡ length h
  unfolding sub_two
  length-sub_two = length-sub_at (sub_at h i 1) j 1 ∙ length-sub_at h i 1

  pub restored_two : add_two (sub_two h i j) i j ≡ h
  unfolding sub_two add_two
  restored_two =
      let (a, b) = two_tiles in
      let g = sub_at h i 1 in
      let g' = sub_at g j 1 in
      let in_h = count_at_in_range h i a in
      let in_g = count_at_in_range g j b in
      list_ext _ _
        (length-add_at (add_at g' i 1) j 1
          ∙ length-add_at g' i 1
          ∙ length-sub_at g j 1
          ∙ length-sub_at h i 1)
        λ k _. ground (
          arith,
          length-sub_at h i 1,
          length-sub_at g j 1,
          length-add_at g' i 1,
          count_at-add_at (add_at g' i 1) j 1 k,
          count_at-add_at g' i 1 k,
          count_at-sub_at g j 1 k,
          count_at-sub_at h i 1 k,
          count_at_eq h i k,
          count_at_eq g j k,
        )
