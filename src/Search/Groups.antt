-- ===== src/Search/Groups.antt =====
-- What a winning shape of searcher.go is: groups whose tiles are exactly the hand.
use go_mahjong.Common.{
  ℕ, zero, suc, ◌+◌, ◌%◌, ◌≤◌, ◌<◌, ◌≡◌, inl, inr, refl, ◌&&◌, List, [], ◌∷◌, Option, none, some,
  arith, ltb, leb, ◌==◌, if◌then◌else◌, length, Bool-cases, ltb→lt,
}
use go_mahjong.Search.{Hand34, count_at, run_fits, first_tile}

-- Three of a kind, or three in a row.
pub data Group : Type 0 where
  triplet run : ℕ → Group

-- A run stays within one of the three suits of nine.
abbrev pub IsGroup : Group → Type 0
IsGroup (triplet i) = i < 34
IsGroup (run i) = (i < 27) × (i % 9 < 7)

-- How many tiles of type `k` the group has.
abbrev pub tiles_of : Group → ℕ → ℕ
tiles_of (triplet i) k = if i == k then 3 else 0
tiles_of (run i) k = if leb i k && ltb k (i + 3) then 1 else 0

abbrev pub total : List Group → ℕ → ℕ
total [] k = 0
total (g ∷ gs) k = tiles_of g k + total gs k

abbrev pub AllGroups : List Group → Type 0
AllGroups [] = Unit
AllGroups (g ∷ gs) = IsGroup g × AllGroups gs

-- The hand is exactly the tiles of `need` groups.
pub record IsSplit (h : Hand34) (need : ℕ) (gs : List Group) : Type 0 where
  pub size : length gs ≡ need
  pub groups : AllGroups gs
  pub exact : (k : ℕ) → k < 34 → count_at h k ≡ total gs k

-- The test of the code for a run is the rule.
pub run_fits_iff : (i : ℕ) → run_fits i ≡ (ltb i 27 && ltb (i % 9) 7)
unfolding run_fits
run_fits_iff i = ground arith

-- What `first_tile` finds.
pub data First (h : Hand34) (k : ℕ) (n : ℕ) : Option ℕ → Type 0 where
  nowhere : ((j : ℕ) → k ≤ j → j < k + n → count_at h j ≡ 0) → First h k n none
  at :
      (i : ℕ)
      → k ≤ i
      → i < k + n
      → 0 < count_at h i
      → ((j : ℕ) → k ≤ j → j < i → count_at h j ≡ 0)
      → First h k n (some i)

First-step :
    {h : Hand34} {k n : ℕ} {r : Option ℕ}
    → count_at h k ≡ 0
    → First h (k + 1) n r
    → First h k (suc n) r
First-step {h} {k} z (nowhere f) = nowhere (λ j p q. ground (arith, f j))
First-step {h} {k} z (at i p q c f) =
    at i (omega arith) (omega arith) c (λ j p' q'. ground (arith, f j))

pub first_tile-First : (n k : ℕ) (h : Hand34) → First h k n (first_tile n k h)
unfolding first_tile
first_tile-First zero k h = nowhere (λ j p q. absurd (omega arith))
first_tile-First (suc n) k h = elim (Bool-cases (ltb 0 (count_at h k))) [
  | inl e ↦ rw e (at k (omega arith) (omega arith) (ltb→lt 0 _ e) (λ j p q. absurd (omega arith)))
  | inr e ↦ rw e (First-step (ground arith) (first_tile-First n (k + 1) h))
]

-- One group of a split that has tile `i`, and the others.
pub record Extracted (gs : List Group) (i : ℕ) : Type 0 where
  pub group : Group
  pub others : List Group
  pub has_tile : 0 < tiles_of group i
  pub is_group : IsGroup group
  pub are_groups : AllGroups others
  pub size : length gs ≡ suc (length others)
  pub parts : (k : ℕ) → total gs k ≡ tiles_of group k + total others k

Extracted-later :
    {gs : List Group} {i : ℕ} (g : Group) → Extracted gs i → IsGroup g → Extracted (g ∷ gs) i
Extracted-later g x v = record {
  group = x.group;
  others = g ∷ x.others;
  has_tile = x.has_tile;
  is_group = x.is_group;
  are_groups = (v, x.are_groups);
  size = omega (arith, x.size);
  parts = λ k. omega (arith, x.parts k);
}

pub extract : (gs : List Group) (i : ℕ) → AllGroups gs → 0 < total gs i → Extracted gs i
extract [] i v h = absurd (omega arith)
extract (g ∷ gs) i v h = elim (Bool-cases (ltb 0 (tiles_of g i))) [
  | inl e ↦ record {
    group = g;
    others = gs;
    has_tile = ltb→lt 0 _ e;
    is_group = v.0;
    are_groups = v.1;
    size = refl;
    parts = λ k. refl;
  }
  | inr e ↦ Extracted-later g (extract gs i v.1 (ground arith)) v.0
]
