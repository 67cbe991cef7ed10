-- ===== src/Search/Shanten.antt =====
-- game/runtime/engines/mahjong/searcher.go: how many tiles a hand is away from waiting.
pub mod Total
pub mod Answer
pub mod Branches
pub mod Leads
pub mod Normal
pub mod Agree
pub mod Shapes
use go_mahjong.Common.{
  ℕ, zero, suc, ◌+◌, ◌-◌, ◌*◌, ◌/◌, Bool, true, false, not, ◌&&◌, List, [], ◌∷◌, Option, none, some,
  ltb, leb, ◌==◌, if◌then◌else◌,
}
use go_mahjong.Common.Int.{ℤ, pos, sub_ℕ, ◌-ℤ◌, ◌+ℤ◌, ltb_ℤ, eqb_ℤ}
use go_mahjong.Search.{
  Hand34, count_at, sub_at, add_at, sub_run, add_run, has_run, run_fits, is_number_tile, suit_of,
  first_tile, kokushi_tiles, count_orphans, count_pairs,
}
use go_mahjong.Search.Cache.{Searcher, key_with_fixed_melds, lookup_key, store_key}

-- `8 - 2*m - t2 - p`, with t2 at most `4 - m`.
unfoldable pub shanten_at : ℕ → ℕ → ℕ → ℤ
shanten_at m p t = let t2 = if ltb (4 - m) t then 4 - m else t in sub_ℕ 8 (2 * m + t2 + p)

abbrev pub lower : ℤ → ℤ → ℤ
lower sh best = if ltb_ℤ sh best then sh else best

-- A branch of `dfsNormalShanten`: its guard, its edit of the hand, how it is undone, and the melds,
-- pairs and partial groups with which the search goes on.
pub record Branch : Type 0 where
  pub guard : Hand34 → Bool
  pub edit : Hand34 → Hand34
  pub undo : Hand34 → Hand34
  pub melds : ℕ
  pub pair : ℕ
  pub partial : ℕ

unfoldable pub sub_two : Hand34 → ℕ → ℕ → Hand34
sub_two h i j = sub_at (sub_at h i 1) j 1

unfoldable pub add_two : Hand34 → ℕ → ℕ → Hand34
add_two h i j = add_at (add_at h i 1) j 1

abbrev pub has_two : Hand34 → ℕ → ℕ → Bool
has_two h i j = ltb 0 (count_at h i) && ltb 0 (count_at h j)

abbrev pub by_triplet : ℕ → ℕ → ℕ → ℕ → Branch
by_triplet i m p t = record {
  guard = λ h. leb 3 (count_at h i);
  edit = λ h. sub_at h i 3;
  undo = λ h. add_at h i 3;
  melds = m + 1;
  pair = p;
  partial = t;
}

abbrev pub by_run : ℕ → ℕ → ℕ → ℕ → Branch
by_run i m p t = record {
  guard = λ h. run_fits i && has_run h i;
  edit = λ h. sub_run h i;
  undo = λ h. add_run h i;
  melds = m + 1;
  pair = p;
  partial = t;
}

abbrev pub by_pair : ℕ → ℕ → ℕ → ℕ → Branch
by_pair i m p t = record {
  guard = λ h. p == 0 && leb 2 (count_at h i);
  edit = λ h. sub_at h i 2;
  undo = λ h. add_at h i 2;
  melds = m;
  pair = 1;
  partial = t;
}

-- Two tiles of one suit, `k` apart.
abbrev pub by_two : ℕ → ℕ → ℕ → ℕ → ℕ → Branch
by_two k i m p t = record {
  guard = λ h. (ltb (i + k) 34 && eqb_ℤ (suit_of i) (suit_of (i + k))) && has_two h i (i + k);
  edit = λ h. sub_two h i (i + k);
  undo = λ h. add_two h i (i + k);
  melds = m;
  pair = p;
  partial = t + 1;
}

abbrev pub by_leaving : ℕ → ℕ → ℕ → ℕ → Branch
by_leaving i m p t = record {
  guard = λ h. true;
  edit = λ h. sub_at h i 1;
  undo = λ h. add_at h i 1;
  melds = m;
  pair = p;
  partial = t;
}

unfoldable pub branches : ℕ → ℕ → ℕ → ℕ → List Branch
branches i m p t =
    if not (is_number_tile i)
    then by_triplet i m p t ∷ by_pair i m p t ∷ by_leaving i m p t ∷ []
    else (by_triplet i m p t
        ∷ by_run i m p t
        ∷ by_pair i m p t
        ∷ by_two 1 i m p t
        ∷ by_two 2 i m p t
        ∷ by_leaving i m p t
        ∷ [])

-- A call of the search: melds, pairs, partial groups, the hand and the best value yet. It gives the
-- hand as it is left and the best value, or none where the fuel runs out.
abbrev pub Call : Type 0
Call = ℕ → ℕ → ℕ → Hand34 → ℤ → Option (Hand34 × ℤ)

unfoldable pub follow : Call → Branch → Hand34 → ℤ → Option (Hand34 × ℤ)
follow call b h best =
    if b.guard h
    then elim (call b.melds b.pair b.partial (b.edit h) best) [
      | none ↦ none
      | some (h', best') ↦ some (b.undo h', best')
    ]
    else some (h, best)

unfoldable pub explore : Call → List Branch → Hand34 → ℤ → Option (Hand34 × ℤ)
explore call [] h best = some (h, best)
explore call (b ∷ bs) h best = elim (follow call b h best) [
  | none ↦ none
  | some (h', best') ↦ explore call bs h' best'
]

unfoldable pub dfs_normal_shanten : ℕ → Call
dfs_normal_shanten zero m p t h best = none
dfs_normal_shanten (suc fuel) m p t h best =
    let best' = lower (shanten_at m p t) best in
    elim (ltb 4 m) [
      | true ↦ some (h, best)
      | false ↦ elim (first_tile 34 0 h) [
        | none ↦ some (h, best')
        | some i ↦ explore (dfs_normal_shanten fuel) (branches i m p t) h best'
      ]
    ]

-- The tiles of a hand.
abbrev pub tile_count : Hand34 → ℕ
tile_count [] = 0
tile_count (x ∷ h) = x + tile_count h

unfoldable pub shanten_normal : Hand34 → ℕ → Option ℤ
shanten_normal h fixed_melds =
    elim (dfs_normal_shanten (suc (tile_count h)) fixed_melds 0 0 h (pos 8)) [
      | none ↦ none
      | some (h', best) ↦ some best
    ]

unfoldable pub shanten_kokushi : Hand34 → ℤ
shanten_kokushi h =
    let (unique, pair) = count_orphans kokushi_tiles h 0 false in
    let sh = pos 13 -ℤ pos unique in if pair then sh -ℤ pos 1 else sh

-- The types that the loop of `ShantenChiitoi` meets.
unfoldable pub count_unique : ℕ → ℕ → Hand34 → ℕ → ℕ
count_unique zero i h unique = unique
count_unique (suc n) i h unique =
    count_unique n (i + 1) h (if ltb 0 (count_at h i) then unique + 1 else unique)

unfoldable pub shanten_chiitoi : Hand34 → ℤ
shanten_chiitoi h =
    let unique = count_unique 34 0 h 0 in
    let sh = pos 6 -ℤ pos (count_pairs 34 0 h 0) in
    if ltb unique 7 then sh +ℤ pos (7 - unique) else sh

-- What `ShantenAll` computes where its cache has no entry.
unfoldable pub shanten_shape : Hand34 → ℕ → Option ℤ
shanten_shape h fixed_melds = elim (shanten_normal h fixed_melds) [
  | none ↦ none
  | some best ↦ some (
      if fixed_melds == 0 then lower (shanten_kokushi h) (lower (shanten_chiitoi h) best) else best)
]

unfoldable pub shanten_all : Searcher → Hand34 → ℕ → Option (Searcher × ℤ)
shanten_all s h fixed_melds =
    let key = key_with_fixed_melds h fixed_melds in
    elim (lookup_key key s.shanten_cache) [
      | some v ↦ some (s, v)
      | none ↦ elim (shanten_shape h fixed_melds) [
        | none ↦ none
        | some best ↦ some (record s { shanten_cache = store_key key best s.shanten_cache }, best)
      ]
    ]
