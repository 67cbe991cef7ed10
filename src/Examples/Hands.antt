-- ===== src/Examples/Hands.antt =====
-- The theorems of the search for winning hands, applied to hands.
use mathlib.Core.List.{Memᴰ}
use go_mahjong.Common.{ℕ, ◌≡◌, ◌↔◌, ◌%◌, ◌<◌, ◌≤◌, refl, true, List, [], ◌∷◌, none, arith}
use go_mahjong.Common.Int.{pos}
use go_mahjong.Tiles.{Tile}
use go_mahjong.Search.{
  can_form_melds, is_agari_normal, is_agari_chiitoi, is_agari_kokushi, is_agari_shape, count_at,
  kokushi_tiles,
}
use go_mahjong.Search.Groups.{Group, IsSplit}
use go_mahjong.Search.Splits.{can_form_melds_iff}
use go_mahjong.Search.Agari.{IsWinning, is_agari_normal_iff}
use go_mahjong.Search.Special.{is_agari_chiitoi_iff, AllPresent, is_agari_kokushi_iff}
use go_mahjong.Search.Cache.{
  Searcher, new_searcher, is_agari_all, waits_and_ukeire, seek_candidates, Candidate,
}
use go_mahjong.Search.Cache.Sound.{IsSound, new_searcher-IsSound, is_agari_all_lem}
use go_mahjong.Search.Cache.Waits.{Wins, waits_and_ukeire_iff}
use go_mahjong.Search.Cache.Tally.{AllTypes}
use go_mahjong.Search.Cache.Candidates.{IsCandidate, seek_candidates_iff}
use go_mahjong.Examples.{two_groups, one_called, waits_green, six_types, thirteen_tiles, tile}

can_form_melds_iff_example :
    ((can_form_melds 2 two_groups).0 ≡ two_groups)
    × (((can_form_melds 2 two_groups).1 ≡ true) ↔ ((gs : List Group) × IsSplit two_groups 2 gs))
can_form_melds_iff_example = can_form_melds_iff 2 two_groups refl

is_agari_normal_iff_example : (is_agari_normal one_called 1 ≡ true) ↔ IsWinning one_called 1
is_agari_normal_iff_example = is_agari_normal_iff one_called 1 refl

is_agari_chiitoi_iff_example :
    (is_agari_chiitoi six_types ≡ true) ↔ ((k : ℕ) → k < 34 → count_at six_types k % 2 ≡ 0)
is_agari_chiitoi_iff_example = is_agari_chiitoi_iff six_types refl

is_agari_kokushi_iff_example : (is_agari_kokushi one_called ≡ true) ↔ (
    AllPresent one_called kokushi_tiles
    × (i : ℕ) × Memᴰ i kokushi_tiles
    × (2 ≤ count_at one_called i))
is_agari_kokushi_iff_example = is_agari_kokushi_iff one_called

is_agari_all_lem_example :
    ((is_agari_all new_searcher one_called 1).1 ≡ is_agari_shape one_called 1)
    × IsSound (is_agari_all new_searcher one_called 1).0
is_agari_all_lem_example =
    is_agari_all_lem new_searcher one_called 1 new_searcher-IsSound refl (omega arith)

-- The search has been asked before: its caches are not empty.
abbrev asked : Searcher
asked = (waits_and_ukeire new_searcher waits_green 1 none).0

asked-IsSound : IsSound asked
asked-IsSound =
    (waits_and_ukeire_iff new_searcher waits_green 1 none 0 new_searcher-IsSound refl
      (omega arith)).0

waits_and_ukeire_iff_example :
    IsSound (waits_and_ukeire asked waits_green 1 none).0
    × (Memᴰ 32 (waits_and_ukeire asked waits_green 1 none).1 ↔ ((32 < 34) × Wins waits_green 1 32))
waits_and_ukeire_iff_example =
    waits_and_ukeire_iff asked waits_green 1 none 32 asked-IsSound refl (omega arith)

-- Fourteen tiles, and the discard of a red dragon, which leaves a wait for two winds.
abbrev fourteen_tiles : List Tile
fourteen_tiles = tile 33 0 ∷ thirteen_tiles

abbrev drop_dragon : Candidate
drop_dragon = record {
  discard_type = 33;
  discard_options = tile 33 0 ∷ [];
  waits = 27 ∷ 30 ∷ [];
  ukeire = pos 4;
}

fourteen_tiles-AllTypes : AllTypes fourteen_tiles
fourteen_tiles-AllTypes = search arith

seek_candidates_iff_example :
    IsSound (seek_candidates asked fourteen_tiles 0 none).0
    × (Memᴰ drop_dragon (seek_candidates asked fourteen_tiles 0 none).1
        ↔ IsCandidate fourteen_tiles 0 none drop_dragon)
seek_candidates_iff_example =
    seek_candidates_iff asked fourteen_tiles 0 none drop_dragon asked-IsSound (omega arith)
      fourteen_tiles-AllTypes (omega arith)
