-- ===== src/Tiles.antt =====
-- game/runtime/engines/mahjong/material.go: tiles, winds and the deck of 136 tiles.
-- A `TileType` is the Go integer; the negative values, which no tile of a deck has, are left out.
pub mod Generate
use Prim.Native.String.{String}
use go_mahjong.Common.{
  ℕ, zero, suc, ◌+◌, ◌-◌, ◌%◌, Bool, true, false, ◌&&◌, ◌||◌, List, [], ◌∷◌, ◌++◌, leb, ◌==◌,
  if◌then◌else◌,
}

abbrev pub TileType : Type 0
TileType = ℕ

abbrev pub man1 : TileType
man1 = 0

abbrev pub man2 : TileType
man2 = 1

abbrev pub man3 : TileType
man3 = 2

abbrev pub man4 : TileType
man4 = 3

abbrev pub man5 : TileType
man5 = 4

abbrev pub man6 : TileType
man6 = 5

abbrev pub man7 : TileType
man7 = 6

abbrev pub man8 : TileType
man8 = 7

abbrev pub man9 : TileType
man9 = 8

abbrev pub pin1 : TileType
pin1 = 9

abbrev pub pin2 : TileType
pin2 = 10

abbrev pub pin3 : TileType
pin3 = 11

abbrev pub pin4 : TileType
pin4 = 12

abbrev pub pin5 : TileType
pin5 = 13

abbrev pub pin6 : TileType
pin6 = 14

abbrev pub pin7 : TileType
pin7 = 15

abbrev pub pin8 : TileType
pin8 = 16

abbrev pub pin9 : TileType
pin9 = 17

abbrev pub so1 : TileType
so1 = 18

abbrev pub so2 : TileType
so2 = 19

abbrev pub so3 : TileType
so3 = 20

abbrev pub so4 : TileType
so4 = 21

abbrev pub so5 : TileType
so5 = 22

abbrev pub so6 : TileType
so6 = 23

abbrev pub so7 : TileType
so7 = 24

abbrev pub so8 : TileType
so8 = 25

abbrev pub so9 : TileType
so9 = 26

abbrev pub east : TileType
east = 27

abbrev pub south : TileType
south = 28

abbrev pub west : TileType
west = 29

abbrev pub north : TileType
north = 30

abbrev pub white : TileType
white = 31

abbrev pub green : TileType
green = 32

abbrev pub red : TileType
red = 33

abbrev pub tile_limit : ℕ
tile_limit = 136

pub record Tile : Type 0 where
  pub type : TileType
  pub id : ℕ

-- Go's `Tile{}`.
abbrev pub zero_tile : Tile
zero_tile = record { type = 0; id = 0 }

-- The test that the code writes out as `a.Type == b.Type && a.ID == b.ID`.
abbrev pub same_tile : Tile → Tile → Bool
same_tile a b = a.type == b.type && a.id == b.id

unfoldable pub is_numbered : TileType → Bool
is_numbered t = leb man1 t && leb t so9

unfoldable pub is_honor : TileType → Bool
is_honor t = leb east t && leb t red

unfoldable pub is_five : TileType → Bool
is_five t = t == man5 || t == pin5 || t == so5

unfoldable pub is_red_five : Tile → Bool
is_red_five t = t.id == 0 && (t.type == man5 || t.type == pin5 || t.type == so5)

-- `(i + 1) % 4` over the four winds.
abbrev pub Wind : Type 0
Wind = ℕ

unfoldable pub wind_next : Wind → Wind
wind_next w = (w + 1) % 4

unfoldable pub wind_string : Wind → String
wind_string w =
    if w == 0
    then "东"
    else if w == 1
    then "南"
    else if w == 2
    then "西"
    else if w == 3
    then "北"
    else "未知"

-- The inner loop of `generateSuitTiles` and `generateHonorTiles`, with `n` rounds left.
unfoldable pub append_copies : ℕ → TileType → ℕ → List Tile → List Tile
append_copies zero t i tiles = tiles
append_copies (suc n) t i tiles =
    append_copies n t (i + 1) (tiles ++ record { type = t; id = i } ∷ [])

-- The outer loop, with `n` types left.
unfoldable pub append_types : ℕ → TileType → List Tile → List Tile
append_types zero t tiles = tiles
append_types (suc n) t tiles = append_types n (t + 1) (append_copies 4 t 0 tiles)

unfoldable pub generate_suit_tiles : TileType → TileType → List Tile → List Tile
generate_suit_tiles first final tiles = append_types (final + 1 - first) first tiles

unfoldable pub generate_honor_tiles : TileType → TileType → List Tile → List Tile
generate_honor_tiles first final tiles = append_types (final + 1 - first) first tiles

-- The flag is not read: a red five is the five with id 0.
unfoldable pub initialize_tiles : Bool → List Tile
initialize_tiles use_red_fives =
    generate_honor_tiles east red (
      generate_suit_tiles so1 so9
        (generate_suit_tiles pin1 pin9 (generate_suit_tiles man1 man9 [])))

unfoldable pub new_tile_deck : Bool → List Tile
new_tile_deck use_red_fives = initialize_tiles use_red_fives
