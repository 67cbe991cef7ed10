-- ===== src/Tiles/Generate.antt =====
-- What `NewTileDeck` of material.go generates.
use go_mahjong.Common.{
  ℕ, zero, suc, ◌+◌, ◌<◌, ◌≡◌, refl, Bool, ◌&&◌, List, [], ◌∷◌, ◌++◌, arith, ltb, leb, ◌==◌,
  if◌then◌else◌, length, count_by, count_by-append,
}
use go_mahjong.Tiles.{
  Tile, TileType, same_tile, append_copies, append_types, generate_suit_tiles, generate_honor_tiles,
  initialize_tiles, new_tile_deck,
}

count-append_copies :
    (x : Tile) (n : ℕ) (t : TileType) (i : ℕ) (tiles : List Tile)
    → count_by (same_tile x) (append_copies n t i tiles)
      ≡ count_by (same_tile x) tiles
        + (if x.type == t && (leb i x.id && ltb x.id (i + n)) then 1 else 0)
unfolding append_copies
count-append_copies x zero t i tiles = ground arith
count-append_copies x (suc n) t i tiles = ground (
  arith,
  count-append_copies x n t (i + 1) (tiles ++ record { type = t; id = i } ∷ []),
  count_by-append (same_tile x) tiles (record { type = t; id = i } ∷ []),
)

count-append_types :
    (x : Tile) (n : ℕ) (t : TileType) (tiles : List Tile)
    → count_by (same_tile x) (append_types n t tiles)
      ≡ count_by (same_tile x) tiles
        + (if (leb t x.type && ltb x.type (t + n)) && ltb x.id 4 then 1 else 0)
unfolding append_types
count-append_types x zero t tiles = ground arith
count-append_types x (suc n) t tiles = ground (
  arith,
  count-append_types x n (t + 1) (append_copies 4 t 0 tiles),
  count-append_copies x 4 t 0 tiles,
)

-- The deck has each tile of the 34 types and the ids 0 to 3 exactly once, and no other tile.
pub count-new_tile_deck :
    (b : Bool) (x : Tile)
    → count_by (same_tile x) (new_tile_deck b) ≡ (if ltb x.type 34 && ltb x.id 4 then 1 else 0)
unfolding new_tile_deck initialize_tiles generate_suit_tiles generate_honor_tiles
count-new_tile_deck b x = ground (
  arith,
  count-append_types x 7 27 (append_types 9 18 (append_types 9 9 (append_types 9 0 []))),
  count-append_types x 9 18 (append_types 9 9 (append_types 9 0 [])),
  count-append_types x 9 9 (append_types 9 0 []),
  count-append_types x 9 0 [],
)

pub length-new_tile_deck : (b : Bool) → length (new_tile_deck b) ≡ 136
unfolding new_tile_deck initialize_tiles generate_suit_tiles generate_honor_tiles append_types
    append_copies
length-new_tile_deck b = refl

count_type-append_copies :
    (u : TileType) (n : ℕ) (t : TileType) (i : ℕ) (tiles : List Tile)
    → count_by (λ x. x.type == u) (append_copies n t i tiles)
      ≡ count_by (λ x. x.type == u) tiles + (if t == u then n else 0)
unfolding append_copies
count_type-append_copies u zero t i tiles = ground arith
count_type-append_copies u (suc n) t i tiles = ground (
  arith,
  count_type-append_copies u n t (i + 1) (tiles ++ record { type = t; id = i } ∷ []),
  count_by-append (λ x. x.type == u) tiles (record { type = t; id = i } ∷ []),
)

count_type-append_types :
    (u : TileType) (n : ℕ) (t : TileType) (tiles : List Tile)
    → count_by (λ x. x.type == u) (append_types n t tiles)
      ≡ count_by (λ x. x.type == u) tiles + (if leb t u && ltb u (t + n) then 4 else 0)
unfolding append_types
count_type-append_types u zero t tiles = ground arith
count_type-append_types u (suc n) t tiles = ground (
  arith,
  count_type-append_types u n (t + 1) (append_copies 4 t 0 tiles),
  count_type-append_copies u 4 t 0 tiles,
)

-- Each of the 34 types has four tiles in the deck.
pub count_type-new_tile_deck :
    (b : Bool) (u : ℕ) → u < 34 → count_by (λ x. x.type == u) (new_tile_deck b) ≡ 4
unfolding new_tile_deck initialize_tiles generate_suit_tiles generate_honor_tiles
count_type-new_tile_deck b u h = ground (
  arith,
  count_type-append_types u 7 27 (append_types 9 18 (append_types 9 9 (append_types 9 0 []))),
  count_type-append_types u 9 18 (append_types 9 9 (append_types 9 0 [])),
  count_type-append_types u 9 9 (append_types 9 0 []),
  count_type-append_types u 9 0 [],
)
