-- ===== src/Search/Special.antt =====
-- The two irregular winning shapes of searcher.go: seven pairs and thirteen orphans.
use mathlib.Core.List.{Memᴰ}
use go_mahjong.Common.{
  ℕ, zero, suc, ◌+◌, ◌*◌, ◌/◌, ◌%◌, ◌≤◌, ◌<◌, ◌≡◌, ◌↔◌, inl, inr, refl, ◌∙◌, ap, Bool, true, false,
  ◌&&◌, ◌||◌, List, [], ◌∷◌, arith, ltb, leb, ◌==◌, if◌then◌else◌, length, Bool-cases, &&_iff,
}
use go_mahjong.Search.{
  Hand34, count_at, count_pairs, is_agari_chiitoi, count_orphans, kokushi_tiles, is_agari_kokushi,
}

-- How many tiles the counters from `i` on hold, `n` of them.
abbrev pub tiles_from : ℕ → ℕ → Hand34 → ℕ
tiles_from zero i h = 0
tiles_from (suc n) i h = count_at h i + tiles_from n (i + 1) h

abbrev odds_from : ℕ → ℕ → Hand34 → ℕ
odds_from zero i h = 0
odds_from (suc n) i h = count_at h i % 2 + odds_from n (i + 1) h

count_pairs_lem :
    (n i pairs : ℕ) (h : Hand34)
    → 2 * count_pairs n i h pairs + odds_from n i h ≡ 2 * pairs + tiles_from n i h
unfolding count_pairs
count_pairs_lem zero i pairs h = omega arith
count_pairs_lem (suc n) i pairs h =
    omega (arith, count_pairs_lem n (i + 1) (pairs + count_at h i / 2) h)

odds_from-zero :
    (n i k : ℕ) (h : Hand34) → odds_from n i h ≡ 0 → i ≤ k → k < i + n → count_at h k % 2 ≡ 0
odds_from-zero zero i k h e p q = absurd (omega arith)
odds_from-zero (suc n) i k h e p q =
    ground (arith, odds_from-zero n (i + 1) k h, ap (λ j. count_at h j % 2) {x = i} {y = k})

all_even :
    (n i : ℕ) (h : Hand34)
    → ((k : ℕ) → i ≤ k → k < i + n → count_at h k % 2 ≡ 0)
    → odds_from n i h ≡ 0
all_even zero i h z = refl
all_even (suc n) i h z = omega (
  arith,
  z i (omega arith) (omega arith),
  all_even n (i + 1) h (λ k p q. z k (omega arith) (omega arith)),
)

-- On a hand of 14 tiles IsAgariChiitoi answers true exactly if every count is even: four tiles
-- of one type pass as two of the seven pairs.
pub is_agari_chiitoi_iff :
    (h : Hand34)
    → tiles_from 34 0 h ≡ 14
    → (is_agari_chiitoi h ≡ true) ↔ ((k : ℕ) → k < 34 → count_at h k % 2 ≡ 0)
unfolding is_agari_chiitoi
is_agari_chiitoi_iff h size =
    let balance = count_pairs_lem 34 0 0 h in
    (
      λ e k p. odds_from-zero 34 0 k h (ground (arith, balance)) (omega arith) (omega arith),
      λ z. ground (arith, balance, all_even 34 0 h (λ k p q. z k (omega arith))),
    )

abbrev pub AllPresent : Hand34 → List ℕ → Type 0
AllPresent h [] = Unit {0}
AllPresent h (i ∷ is) = (0 < count_at h i) × AllPresent h is

abbrev present : Hand34 → List ℕ → ℕ
present h [] = 0
present h (i ∷ is) = (if ltb 0 (count_at h i) then 1 else 0) + present h is

abbrev has_pair : Hand34 → List ℕ → Bool
has_pair h [] = false
has_pair h (i ∷ is) = leb 2 (count_at h i) || has_pair h is

count_orphans_lem :
    (is : List ℕ) (h : Hand34) (unique : ℕ) (pair : Bool)
    → count_orphans is h unique pair ≡ (unique + present h is, pair || has_pair h is)
unfolding count_orphans
count_orphans_lem [] h unique pair = ground arith
count_orphans_lem (i ∷ is) h unique pair = count_orphans_lem is h _ _ ∙ ground arith

present-le : (h : Hand34) (is : List ℕ) → present h is ≤ length is
present-le h [] = omega arith
present-le h (i ∷ is) = ground (arith, present-le h is)

present-AllPresent : (h : Hand34) (is : List ℕ) → present h is ≡ length is → AllPresent h is
present-AllPresent h [] e = tt
present-AllPresent h (i ∷ is) e =
    (ground (arith, present-le h is), present-AllPresent h is (ground (arith, present-le h is)))

AllPresent-present : (h : Hand34) (is : List ℕ) → AllPresent h is → present h is ≡ length is
AllPresent-present h [] v = refl
AllPresent-present h (i ∷ is) v = ground (arith, AllPresent-present h is v.1)

has_pair_finds :
    (h : Hand34) (is : List ℕ) → has_pair h is ≡ true → (i : ℕ) × Memᴰ i is × (2 ≤ count_at h i)
has_pair_finds h [] e = cc
has_pair_finds h (i ∷ is) e = elim (Bool-cases (leb 2 (count_at h i))) [
  | inl here ↦ (i, Memᴰ.head refl, ground arith)
  | inr not_here ↦ let (j, m, two) = has_pair_finds h is (ground arith) in (j, Memᴰ.tail m, two)
]

has_pair_holds :
    (h : Hand34) (i : ℕ) {is : List ℕ} → 2 ≤ count_at h i → Memᴰ i is → has_pair h is ≡ true
has_pair_holds h i two (Memᴰ.head e) = ground (arith, ap (count_at h) e)
has_pair_holds h i two (Memᴰ.tail m) = ground (arith, has_pair_holds h i two m)

orphans_iff :
    (is : List ℕ) (h : Hand34)
    → let (unique, pair) = count_orphans is h 0 false in
      ((unique == length is && pair) ≡ true)
      ↔ (AllPresent h is × (i : ℕ) × Memᴰ i is × (2 ≤ count_at h i))
orphans_iff is h = rw (count_orphans_lem is h 0 false) (
  λ e.
      let (complete, pair) = (&&_iff (0 + present h is == length is) (has_pair h is)).0 e in
      let (i, m, two) = has_pair_finds h is pair in
      (present-AllPresent h is (ground arith), i, m, two),
  λ (v, i, m, two). ground (arith, AllPresent-present h is v, has_pair_holds h i two m),
)

-- IsAgariKokushi answers true exactly if each of the thirteen orphans is there, one of them
-- twice.
pub is_agari_kokushi_iff :
    (h : Hand34)
    → (is_agari_kokushi h ≡ true)
      ↔ (AllPresent h kokushi_tiles × (i : ℕ) × Memᴰ i kokushi_tiles × (2 ≤ count_at h i))
unfolding is_agari_kokushi
is_agari_kokushi_iff h = orphans_iff kokushi_tiles h
