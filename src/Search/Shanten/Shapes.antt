-- ===== src/Search/Shanten/Shapes.antt =====
-- `ShantenKokushi`, `ShantenChiitoi` and `ShantenAll` against the winning shapes.
use go_mahjong.Common.{
  ℕ, zero, suc, ◌+◌, ◌-◌, ◌*◌, ◌/◌, ◌≤◌, ◌<◌, ◌≡◌, ◌⊎◌, ◌↔◌, inl, inr, sym, ap, ◌∙◌, Bool, true,
  false, ◌&&◌, List, [], ◌∷◌, Option, some, arith, ltb, leb, ◌==◌, if◌then◌else◌, length,
  Bool-cases,
}
use go_mahjong.Common.Int.{ℤ, pos, negsuc, neg_part, ◌-ℤ◌, ◌+ℤ◌}
use go_mahjong.Search.{
  Hand34, count_at, is_agari_normal, count_pairs, count_orphans, kokushi_tiles, is_agari_kokushi,
}
use go_mahjong.Search.Shanten.{
  tile_count, shanten_kokushi, shanten_chiitoi, shanten_shape, count_unique, lower,
}
use go_mahjong.Search.Shanten.Normal.{shanten_normal_iff}
use go_mahjong.Search.Shanten.Agree.{
  sum_from, sum_from-add, sum_from_exact, sum_from_le, tile_count-sum_from,
  shanten_normal-is_agari_normal,
}

orphans_bound :
    (is : List ℕ) (h : Hand34) (u : ℕ) (b : Bool) → (count_orphans is h u b).0 ≤ u + length is
unfolding count_orphans
orphans_bound [] h u b = omega arith
orphans_bound (i ∷ is) h u b = ground (
  arith,
  orphans_bound is h (if ltb 0 (count_at h i) then u + 1 else u)
      (if ltb 0 (count_at h i) && leb 2 (count_at h i) then true else b),
)

pub shanten_kokushi_lem :
    (h : Hand34)
    → (neg_part (shanten_kokushi h) ≤ 1)
      × ((shanten_kokushi h ≡ negsuc 0) ↔ (is_agari_kokushi h ≡ true))
unfolding shanten_kokushi is_agari_kokushi ◌-ℤ◌
shanten_kokushi_lem h =
    let bound = orphans_bound kokushi_tiles h 0 false in
    (ground arith, (λ e. ground arith, λ e. ground arith))

count_pairs-sum_from :
    (n i acc : ℕ) (h : Hand34) → count_pairs n i h acc ≡ acc + sum_from n i (λ k. count_at h k / 2)
unfolding count_pairs
count_pairs-sum_from zero i acc h = omega arith
count_pairs-sum_from (suc n) i acc h =
    ground (arith, count_pairs-sum_from n (suc i) (acc + count_at h i / 2) h)

count_unique-sum_from :
    (n i acc : ℕ) (h : Hand34)
    → count_unique n i h acc ≡ acc + sum_from n i (λ k. if ltb 0 (count_at h k) then 1 else 0)
unfolding count_unique
count_unique-sum_from zero i acc h = omega arith
count_unique-sum_from (suc n) i acc h =
    ground
      (arith, count_unique-sum_from n (suc i) (if ltb 0 (count_at h i) then acc + 1 else acc) h)

-- Seven pairs of different types, and nothing else.
abbrev pub IsSevenPairs : Hand34 → Type 0
IsSevenPairs h = (k : ℕ) → k < 34 → (count_at h k ≡ 0) ⊎ (count_at h k ≡ 2)

abbrev halves : Hand34 → ℕ → ℕ
halves h k = count_at h k / 2

abbrev kinds : Hand34 → ℕ → ℕ
kinds h k = if ltb 0 (count_at h k) then 1 else 0

-- The value from the numbers of pairs and of types.
abbrev chiitoi_value : ℕ → ℕ → ℤ
chiitoi_value p u = let sh = pos 6 -ℤ pos p in if ltb u 7 then sh +ℤ pos (7 - u) else sh

chiitoi_floor : (p u : ℕ) → p ≤ 7 → neg_part (chiitoi_value p u) ≤ 1
unfolding ◌-ℤ◌ ◌+ℤ◌
chiitoi_floor p u q = ground arith

chiitoi_low : (p u : ℕ) → chiitoi_value p u ≡ negsuc 0 → p ≤ 7 → (7 ≤ p) × (7 ≤ u)
unfolding ◌-ℤ◌ ◌+ℤ◌
chiitoi_low p u e q = ground arith

chiitoi_seven : (p u : ℕ) → p ≡ 7 → u ≡ 7 → chiitoi_value p u ≡ negsuc 0
unfolding ◌-ℤ◌ ◌+ℤ◌
chiitoi_seven p u q q' = ground arith

module _ (h : Hand34) (size : length h ≡ 34) (tiles : tile_count h ≡ 14) where
  held : sum_from 34 0 (count_at h) ≡ 14
  held = ap (λ (n : ℕ). sum_from n 0 (count_at h)) (sym size) ∙ sym (tile_count-sum_from h) ∙ tiles

  twice : sum_from 34 0 (λ k. halves h k + halves h k) ≡ 2 * sum_from 34 0 (halves h)
  twice = sum_from-add 34 0 (halves h) (halves h) ∙ omega arith

  at_most_seven : sum_from 34 0 (halves h) ≤ 7
  at_most_seven =
      let le =
        sum_from_le 34 0 (λ (k : ℕ). halves h k + halves h k) (count_at h) (λ k _ _. omega arith) in
      omega (arith, le, held, twice)

  seven_pairs : 7 ≤ sum_from 34 0 (halves h) → 7 ≤ sum_from 34 0 (kinds h) → IsSevenPairs h
  seven_pairs p u k q =
      let even =
        sum_from_exact 34 0 (λ (j : ℕ). halves h j + halves h j) (count_at h) (λ j _ _. omega arith)
          (omega (arith, held, twice)) in
      let once =
        sum_from_exact 34 0 (kinds h) (halves h) (λ j a b. ground (arith, even j a b))
          (omega (arith, at_most_seven)) in
      let e = even k (omega arith) q in
      let o = once k (omega arith) q in
      elim (Bool-cases (ltb 0 (count_at h k))) [
        | inl some' ↦ inr (ground arith)
        | inr none' ↦ inl (ground arith)
      ]

  counts_seven : IsSevenPairs h → (sum_from 34 0 (halves h) ≡ 7) × (sum_from 34 0 (kinds h) ≡ 7)
  counts_seven v =
      let le =
        sum_from_le 34 0 (count_at h) (λ (k : ℕ). halves h k + halves h k)
          (λ k _ q. elim (v k q) [ inl e ↦ omega arith | inr e ↦ omega arith ]) in
      let up =
        sum_from_le 34 0 (halves h) (kinds h)
          (λ k _ q. elim (v k q) [ inl e ↦ ground arith | inr e ↦ ground arith ]) in
      let down =
        sum_from_le 34 0 (kinds h) (halves h)
          (λ k _ q. elim (v k q) [ inl e ↦ ground arith | inr e ↦ ground arith ]) in
      let seven : sum_from 34 0 (halves h) ≡ 7 = omega (arith, le, held, twice, at_most_seven) in
      (seven, omega (arith, up, down, seven))

  pub shanten_chiitoi_lem :
      (neg_part (shanten_chiitoi h) ≤ 1) × ((shanten_chiitoi h ≡ negsuc 0) ↔ IsSevenPairs h)
  unfolding shanten_chiitoi
  shanten_chiitoi_lem =
      let p = count_pairs 34 0 h 0 in
      let u = count_unique 34 0 h 0 in
      let pairs : p ≡ sum_from 34 0 (halves h) = omega (arith, count_pairs-sum_from 34 0 0 h) in
      let unique : u ≡ sum_from 34 0 (kinds h) = omega (arith, count_unique-sum_from 34 0 0 h) in
      (
        chiitoi_floor p u (omega (arith, pairs, at_most_seven)),
        (
          λ e.
              let (p', u') = chiitoi_low p u e (omega (arith, pairs, at_most_seven)) in
              seven_pairs (omega (arith, pairs, p')) (omega (arith, unique, u')),
          λ v. let (p', u') = counts_seven v in chiitoi_seven p u (pairs ∙ p') (unique ∙ u'),
        ),
      )

some_eq : {a b : ℤ} → ◌≡◌ {A = Option ℤ} (some a) (some b) → a ≡ b
some_eq e = cc

low_of_three :
    (a b c : ℤ)
    → neg_part a ≤ 1
    → neg_part b ≤ 1
    → neg_part c ≤ 1
    → (lower a (lower b c) ≡ negsuc 0) ↔ ((c ≡ negsuc 0) ⊎ (b ≡ negsuc 0) ⊎ (a ≡ negsuc 0))
low_of_three a b c p q r = (λ e. ground arith, λ x. ground arith)

-- On 34 counters that hold 14 tiles less three for each called meld, the shanten number is -1
-- exactly if IsAgariNormal answers true or no meld is called and the hand is seven pairs of
-- different types or IsAgariKokushi answers true.
pub shanten_shape_iff :
    (h : Hand34) (fixed_melds : ℕ)
    → length h ≡ 34
    → tile_count h ≡ 14 - 3 * fixed_melds
    → (shanten_shape h fixed_melds ≡ some (negsuc 0)) ↔ (
        (is_agari_normal h fixed_melds ≡ true)
        ⊎ ((fixed_melds ≡ 0) × (IsSevenPairs h ⊎ (is_agari_kokushi h ≡ true))))
unfolding shanten_shape
shanten_shape_iff h fixed_melds size tiles =
    let ((best, returns, floor), _) = shanten_normal_iff h fixed_melds size in
    let normal = shanten_normal-is_agari_normal h fixed_melds size tiles in
    let best_iff : (best ≡ negsuc 0) ↔ (is_agari_normal h fixed_melds ≡ true) = (
      λ e. normal.0 (returns ∙ ap (λ (v : ℤ). some v) e),
      λ e. some_eq (sym returns ∙ normal.1 e),
    ) in
    elim (Bool-cases (fixed_melds == 0)) [
      | inr called ↦
          rw (returns, called, shanten_shape)
            (
              λ e. inl (best_iff.0 (some_eq e)),
              λ x. elim x [
                | inl e ↦ ap (λ (v : ℤ). some v) (best_iff.1 e)
                | inr (z, _) ↦ absurd (ground arith)
              ],
            )
      | inl closed ↦
          let z : fixed_melds ≡ 0 = ground arith in
          let (pairs_floor, pairs) = shanten_chiitoi_lem h size (omega (arith, z)) in
          let (orphans_floor, orphans) = shanten_kokushi_lem h in
          let three =
            low_of_three (shanten_kokushi h) (shanten_chiitoi h) best orphans_floor pairs_floor
              floor in
          rw (returns, closed, shanten_shape)
            (
              λ e. elim (three.0 (some_eq e)) [
                | inl x ↦ inl (best_iff.0 x)
                | inr (inl x) ↦ inr (z, inl (pairs.0 x))
                | inr (inr x) ↦ inr (z, inr (orphans.0 x))
              ],
              λ x.
                  ap (λ (v : ℤ). some v)
                    (three.1 (elim x [
                      | inl y ↦ inl (best_iff.1 y)
                      | inr (_, inl y) ↦ inr (inl (pairs.1 y))
                      | inr (_, inr y) ↦ inr (inr (orphans.1 y))
                    ])),
            )
    ]
