-- ===== src/Search/Shanten/Agree.antt =====
-- A hand of the right size has shanten -1 exactly if `IsAgariNormal` takes it for a win.
use go_mahjong.Common.{
  ℕ, zero, suc, ◌+◌, ◌-◌, ◌*◌, ◌≤◌, ◌<◌, ◌≡◌, ◌↔◌, inl, inr, refl, sym, ap, subst, ◌∙◌, true, ◌&&◌,
  List, [], ◌∷◌, some, arith, ltb, leb, ◌==◌, if◌then◌else◌, length, Bool-cases,
}
use go_mahjong.Common.Int.{negsuc}
use go_mahjong.Search.{Hand34, count_at, is_agari_normal}
use go_mahjong.Search.Groups.{Group, triplet, run, IsGroup, AllGroups, tiles_of, total}
use go_mahjong.Search.Agari.{IsWinning, is_agari_normal_iff}
use go_mahjong.Search.Shanten.{tile_count, shanten_normal}
use go_mahjong.Search.Shanten.Answer.{Holds}
use go_mahjong.Search.Shanten.Normal.{shanten_normal_iff}

-- f i + … + f (i + n - 1)
abbrev pub sum_from : ℕ → ℕ → (ℕ → ℕ) → ℕ
sum_from zero i f = 0
sum_from (suc n) i f = f i + sum_from n (suc i) f

sum_from-tail :
    (n i x : ℕ) (h : Hand34) → sum_from n (suc i) (count_at (x ∷ h)) ≡ sum_from n i (count_at h)
sum_from-tail zero i x h = refl
sum_from-tail (suc n) i x h = ap (λ (s : ℕ). count_at h i + s) (sum_from-tail n (suc i) x h)

pub tile_count-sum_from : (h : Hand34) → tile_count h ≡ sum_from (length h) 0 (count_at h)
tile_count-sum_from [] = refl
tile_count-sum_from (x ∷ h) = omega (arith, tile_count-sum_from h, sum_from-tail (length h) 0 x h)

pub sum_from-add :
    (n i : ℕ) (f g : ℕ → ℕ) → sum_from n i (λ k. f k + g k) ≡ sum_from n i f + sum_from n i g
sum_from-add zero i f g = refl
sum_from-add (suc n) i f g = omega (arith, sum_from-add n (suc i) f g)

pub sum_from_le :
    (n i : ℕ) (f g : ℕ → ℕ)
    → ((k : ℕ) → i ≤ k → k < i + n → f k ≤ g k)
    → sum_from n i f ≤ sum_from n i g
sum_from_le zero i f g le = omega arith
sum_from_le (suc n) i f g le = omega (
  arith,
  le i (omega arith) (omega arith),
  sum_from_le n (suc i) f g (λ k p q. le k (omega arith) (omega arith)),
)

-- Where one function is at most another and the sums agree, so do the functions.
pub sum_from_exact :
    (n i : ℕ) (f g : ℕ → ℕ)
    → ((k : ℕ) → i ≤ k → k < i + n → f k ≤ g k)
    → sum_from n i g ≤ sum_from n i f
    → (k : ℕ) → i ≤ k
    → k < i + n
    → g k ≡ f k
sum_from_exact zero i f g le e k p q = absurd (omega arith)
sum_from_exact (suc n) i f g le e k p q =
    let here = le i (omega arith) (omega arith) in
    let le' : (j : ℕ) → suc i ≤ j → j < suc i + n → f j ≤ g j =
      λ j p' q'. le j (omega arith) (omega arith) in
    let later = sum_from_le n (suc i) f g le' in
    elim (Bool-cases (i == k)) [
      | inl same ↦
          let at_i : g i ≡ f i = omega arith in subst (λ (j : ℕ). g j ≡ f j) (ground arith) at_i
      | inr other ↦ sum_from_exact n (suc i) f g le' (omega arith) k (ground arith) (omega arith)
    ]

only_at :
    (n i j c : ℕ)
    → sum_from n i (λ k. if j == k then c else 0) ≡ (if leb i j && ltb j (i + n) then c else 0)
only_at zero i j c = ground arith
only_at (suc n) i j c = ground (arith, only_at n (suc i) j c)

window_at :
    (n i j : ℕ)
    → sum_from n i (λ k. if leb j k && ltb k (j + 3) then 1 else 0)
      ≡ (if leb (i + n) (j + 3) then i + n else j + 3) - (if leb j i then i else j)
window_at zero i j = ground arith
window_at (suc n) i j = ground (arith, window_at n (suc i) j)

group_size : (g : Group) → IsGroup g → sum_from 34 0 (tiles_of g) ≡ 3
group_size (triplet i) v = only_at 34 0 i 3 ∙ ground arith
group_size (run i) v = window_at 34 0 i ∙ ground (arith, v)

total_size : (gs : List Group) → AllGroups gs → sum_from 34 0 (total gs) ≡ 3 * length gs
total_size [] v = refl
total_size (g ∷ gs) v =
    sum_from-add 34 0 (tiles_of g) (total gs) ∙ omega (arith, group_size g v.0, total_size gs v.1)

-- A hand that holds a win and no other tile is one.
exact-Holds :
    (h : Hand34) (fixed_melds : ℕ)
    → length h ≡ 34
    → tile_count h ≡ 14 - 3 * fixed_melds
    → Holds fixed_melds 0 h
    → IsWinning h fixed_melds
exact-Holds h fixed_melds size tiles x =
    let pair : ℕ → ℕ = λ k. if x.pair == k then 2 else 0 in
    let all : ℕ → ℕ = λ k. pair k + total x.groups k in
    let held : sum_from 34 0 (count_at h) ≡ tile_count h =
      ap (λ (n : ℕ). sum_from n 0 (count_at h)) (sym size) ∙ sym (tile_count-sum_from h) in
    let both : sum_from 34 0 all ≡ sum_from 34 0 pair + sum_from 34 0 (total x.groups) =
      sum_from-add 34 0 pair (total x.groups) in
    let one_pair : sum_from 34 0 pair ≡ 2 =
      only_at 34 0 x.pair 2 ∙ ground (arith, x.pair_in_range) in
    let enough : sum_from 34 0 (count_at h) ≤ sum_from 34 0 all =
      omega
        (arith, held, both, one_pair, total_size x.groups x.are_groups, x.size, x.called, tiles) in
    record {
      called = x.called;
      pair = x.pair;
      pair_in_range = x.pair_in_range;
      groups = x.groups;
      size = x.size;
      are_groups = x.are_groups;
      exact = λ k q.
          sum_from_exact 34 0 all (count_at h) (λ j _ q'. x.within j q') enough k (omega arith) q;
    }

-- On 34 counts of 14 - 3 * fixed_melds tiles, shantenNormal answers -1 exactly when isAgariNormal
-- accepts the hand.
pub shanten_normal-is_agari_normal :
    (h : Hand34) (fixed_melds : ℕ)
    → length h ≡ 34
    → tile_count h ≡ 14 - 3 * fixed_melds
    → (shanten_normal h fixed_melds ≡ some (negsuc 0)) ↔ (is_agari_normal h fixed_melds ≡ true)
shanten_normal-is_agari_normal h fixed_melds size tiles =
    let (_, search) = shanten_normal_iff h fixed_melds size in
    let shape = is_agari_normal_iff h fixed_melds size in
    (
      λ e. shape.1 (exact-Holds h fixed_melds size tiles (search.0 e)),
      λ e.
          let w = shape.0 e in
          search.1 (record {
            called = w.called;
            pair = w.pair;
            pair_in_range = w.pair_in_range;
            groups = w.groups;
            size = w.size;
            are_groups = w.are_groups;
            within = λ k q. omega (arith, w.exact k q);
          }),
    )
