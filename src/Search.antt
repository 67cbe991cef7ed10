-- ===== src/Search.antt =====
-- game/runtime/engines/mahjong/searcher.go: hands as 34 counters, and the winning shapes.
-- A `Hand34` is a list of 34 counters; the code indexes it by 0 to 33 only.
pub mod Groups
pub mod Counts
pub mod Melds
pub mod Splits
pub mod Agari
pub mod Special
pub mod Cache
pub mod Shanten
use go_mahjong.Common.{
  ℕ, zero, suc, ◌+◌, ◌-◌, ◌/◌, ◌%◌, Bool, true, false, ◌&&◌, ◌||◌, List, [], ◌∷◌, ◌++◌, Option,
  none, some, ltb, leb, ◌==◌, if◌then◌else◌, get_or, set, replicate,
}
use go_mahjong.Common.Int.{ℤ, pos, negsuc, eqb_ℤ}
use go_mahjong.Tiles.{
  Tile, TileType, man1, man9, pin1, pin9, so1, so9, east, south, west, north, white, green, red,
}

abbrev pub Hand34 : Type 0
Hand34 = List ℕ

abbrev pub count_at : Hand34 → ℕ → ℕ
count_at h i = get_or h i 0

-- `h[i] -= k`, for k at most `h[i]`.
unfoldable pub sub_at : Hand34 → ℕ → ℕ → Hand34
sub_at h i k = set h i (count_at h i - k)

-- `h[i] += k`; it restores a count that was there before, so it does not wrap.
unfoldable pub add_at : Hand34 → ℕ → ℕ → Hand34
add_at h i k = set h i (count_at h i + k)

unfoldable pub is_number_tile : ℕ → Bool
is_number_tile i = leb man1 i && leb i so9

unfoldable pub suit_of : ℕ → ℤ
suit_of i =
    if leb man1 i && leb i man9
    then pos 0
    else if leb pin1 i && leb i pin9
    then pos 1
    else if leb so1 i && leb i so9
    then pos 2
    else negsuc 0

abbrev pub kokushi_tiles : List ℕ
kokushi_tiles =
    man1 ∷ man9 ∷ pin1 ∷ pin9 ∷ so1 ∷ so9 ∷ east ∷ south ∷ west ∷ north ∷ white ∷ green ∷ red ∷ []

-- The loop that checks that no tile is left, from `i` with `n` rounds left.
unfoldable pub all_zero : ℕ → ℕ → Hand34 → Bool
all_zero zero i h = true
all_zero (suc n) i h = if count_at h i == 0 then all_zero n (i + 1) h else false

-- The loop that finds the first tile, from `k` with `n` rounds left; `none` stands for -1.
unfoldable pub first_tile : ℕ → ℕ → Hand34 → Option ℕ
first_tile zero k h = none
first_tile (suc n) k h = if ltb 0 (count_at h k) then some k else first_tile n (k + 1) h

-- A run may begin at tile `i`.
unfoldable pub run_fits : ℕ → Bool
unfolding is_number_tile suit_of
run_fits i =
    is_number_tile i
    && ltb (i + 2) 34
    && eqb_ℤ (suit_of i) (suit_of (i + 1))
    && eqb_ℤ (suit_of i) (suit_of (i + 2))

abbrev pub has_run : Hand34 → ℕ → Bool
has_run h i = ltb 0 (count_at h i) && ltb 0 (count_at h (i + 1)) && ltb 0 (count_at h (i + 2))

unfoldable pub sub_run : Hand34 → ℕ → Hand34
unfolding sub_at
sub_run h i = sub_at (sub_at (sub_at h i 1) (i + 1) 1) (i + 2) 1

unfoldable pub add_run : Hand34 → ℕ → Hand34
unfolding add_at
add_run h i = add_at (add_at (add_at h i 1) (i + 1) 1) (i + 2) 1

-- A branch of `canFormMelds`: under its guard it edits the hand, searches on, and undoes the edit;
-- the next branch goes on from that hand.
unfoldable pub try_branch :
    Bool → Hand34 × Bool → (Hand34 → Hand34) → Hand34 → (Hand34 → Hand34 × Bool) → Hand34 × Bool
try_branch guard (h', ok) undo h next =
    if guard then (if ok then (undo h', true) else next (undo h')) else next h

-- `canFormMelds`, with the hand as it is left.
unfoldable pub can_form_melds : ℕ → Hand34 → Hand34 × Bool
can_form_melds zero h = (h, all_zero 34 0 h)
can_form_melds (suc need) h = elim (first_tile 34 0 h) [
  | none ↦ (h, false)
  | some i ↦
      try_branch (leb 3 (count_at h i)) (can_form_melds need (sub_at h i 3)) (λ g. add_at g i 3) h
        (λ g.
          try_branch (run_fits i && has_run g i) (can_form_melds need (sub_run g i))
            (λ g'. add_run g' i) g (λ g'. (g', false)))
]

-- The loop over the pair in `IsAgariNormal`, from `j` with `n` rounds left.
unfoldable pub pair_loop : ℕ → ℕ → Hand34 → ℕ → Bool
pair_loop zero j h need = false
pair_loop (suc n) j h need =
    let rest = pair_loop n (j + 1) h need in
    if ltb (count_at h j) 2
    then rest
    else (if (can_form_melds need (sub_at h j 2)).1 then true else rest)

unfoldable pub is_agari_normal : Hand34 → ℕ → Bool
is_agari_normal h fixed_melds =
    if ltb 4 fixed_melds then false else pair_loop 34 0 h (4 - fixed_melds)

-- The loop of `IsAgariChiitoi`.
unfoldable pub count_pairs : ℕ → ℕ → Hand34 → ℕ → ℕ
count_pairs zero i h pairs = pairs
count_pairs (suc n) i h pairs = count_pairs n (i + 1) h (pairs + count_at h i / 2)

unfoldable pub is_agari_chiitoi : Hand34 → Bool
is_agari_chiitoi h = leb 7 (count_pairs 34 0 h 0)

-- The loop over the 13 orphans: how many are there, and whether one is a pair.
unfoldable pub count_orphans : List ℕ → Hand34 → ℕ → Bool → ℕ × Bool
count_orphans [] h unique pair = (unique, pair)
count_orphans (i ∷ is) h unique pair =
    count_orphans is h (if ltb 0 (count_at h i) then unique + 1 else unique)
      (if ltb 0 (count_at h i) && leb 2 (count_at h i) then true else pair)

unfoldable pub is_agari_kokushi : Hand34 → Bool
is_agari_kokushi h =
    let (unique, pair) = count_orphans kokushi_tiles h 0 false in unique == 13 && pair

-- What `IsAgariAll` computes where its cache has no entry.
unfoldable pub is_agari_shape : Hand34 → ℕ → Bool
is_agari_shape h fixed_melds =
    if ltb 0 fixed_melds
    then is_agari_normal h fixed_melds
    else (is_agari_normal h 0 || is_agari_chiitoi h || is_agari_kokushi h)
