-- ===== src/Deck.antt =====
-- game/runtime/engines/mahjong/material.go: `Wang` and `DeckManager`.
-- A Go array is a list of its length. `math/rand` is the parameter `Rng`.
pub mod Invariant
pub mod Trace
use go_mahjong.Common.{
  ℕ, zero, suc, ◌+◌, ◌-◌, Bool, true, false, List, [], ◌∷◌, Option, none, some, Perm, ltb, leb,
  ◌==◌, if◌then◌else◌, length, get_or, set, take, drop, replicate,
}
use go_mahjong.Common.Int.{ℤ, pos, negsuc, ◌-ℤ◌, ltb_ℤ, pos_part}
use go_mahjong.Tiles.{Tile, TileType, zero_tile, new_tile_deck}

-- `Shuffle` of `math/rand`, which reorders a slice.
pub record Rng : Type 0 where
  pub shuffle : List Tile → List Tile
  pub shuffle-perm : (tiles : List Tile) → Perm (shuffle tiles) tiles

pub record Wang : Type 0 where
  pub kan_tiles : List Tile
  pub kan_index : ℕ
  pub dora_indicators : List Tile
  pub dora_index : ℕ
  pub ura_dora_indicators : List Tile
  pub ura_dora_index : ℕ

pub record DeckManager : Type 0 where
  pub wall : List Tile
  pub wall_index : ℕ
  pub wang : Wang
  pub remain34 : List ℤ
  pub use_red_fives : Bool

unfoldable pub new_deck_manager : Bool → DeckManager
new_deck_manager use_red_fives = record {
  wall = [];
  wall_index = 0;
  wang = record {
    kan_tiles = replicate 4 zero_tile;
    kan_index = 0;
    dora_indicators = replicate 5 zero_tile;
    dora_index = 0;
    ura_dora_indicators = replicate 5 zero_tile;
    ura_dora_index = 0;
  };
  remain34 = replicate 34 (pos 0);
  use_red_fives = use_red_fives;
}

-- `InitRound` on a deck that is already shuffled.
unfoldable pub fill_round : List Tile → DeckManager → DeckManager
fill_round tiles dm =
    let reset = record dm {
      wall = [];
      wall_index = 0;
      wang = record (dm.wang) { kan_index = 0; dora_index = 0; ura_dora_index = 0 };
      remain34 = replicate 34 (pos 4);
    } in
    let dead_start = length tiles - 14 in
    let wang_tiles = drop dead_start tiles in
    if leb (length tiles) 14 then reset else record reset {
      wall = take dead_start tiles;
      wang = record {
        kan_tiles = take 4 wang_tiles;
        kan_index = 0;
        dora_indicators = take 5 (drop 4 wang_tiles);
        dora_index = 0;
        ura_dora_indicators = take 5 (drop 9 wang_tiles);
        ura_dora_index = 0;
      };
    }

unfoldable pub init_round : Rng → DeckManager → DeckManager
unfolding fill_round
init_round rng dm = fill_round (rng.shuffle (new_tile_deck dm.use_red_fives)) dm

-- `dm.remain34[int(t.Type)]--`
abbrev pub decrement : TileType → List ℤ → List ℤ
decrement i remain34 = set remain34 i (get_or remain34 i (pos 0) -ℤ pos 1)

unfoldable pub draw : DeckManager → DeckManager × Option Tile
draw dm =
    let t = get_or dm.wall dm.wall_index zero_tile in
    if leb (length dm.wall) dm.wall_index then (dm, none) else (
      record dm { wall_index = dm.wall_index + 1; remain34 = decrement t.type dm.remain34 },
      some t,
    )

unfoldable pub deal : DeckManager → DeckManager × Option Tile
unfolding draw
deal dm = draw dm

unfoldable pub draw_kan_tile : DeckManager → DeckManager × Option Tile
draw_kan_tile dm =
    let w = dm.wang in
    let t = get_or w.kan_tiles w.kan_index zero_tile in
    if leb 4 w.kan_index then (dm, none) else (
      record dm {
        wang = record w { kan_index = w.kan_index + 1 };
        remain34 = decrement t.type dm.remain34;
      },
      some t,
    )

unfoldable pub remaining_kan_tiles : DeckManager → ℤ
remaining_kan_tiles dm = pos 4 -ℤ pos dm.wang.kan_index

unfoldable pub can_kan : DeckManager → Bool
can_kan dm = ltb dm.wang.kan_index 4

unfoldable pub reveal_dora_indicator : DeckManager → DeckManager × Option Tile
reveal_dora_indicator dm =
    let w = dm.wang in
    let t = get_or w.dora_indicators w.dora_index zero_tile in
    if leb 5 w.dora_index then (dm, none) else (
      record dm {
        wang = record w { dora_index = w.dora_index + 1 };
        remain34 = decrement t.type dm.remain34;
      },
      some t,
    )

unfoldable pub reveal_ura_dora_indicator : DeckManager → DeckManager × Option Tile
reveal_ura_dora_indicator dm =
    let w = dm.wang in
    let t = get_or w.ura_dora_indicators w.ura_dora_index zero_tile in
    if leb 5 w.ura_dora_index then (dm, none) else (
      record dm {
        wang = record w { ura_dora_index = w.ura_dora_index + 1 };
        remain34 = decrement t.type dm.remain34;
      },
      some t,
    )

unfoldable pub get_dora_indicators : DeckManager → List Tile
get_dora_indicators dm = take dm.wang.dora_index dm.wang.dora_indicators

unfoldable pub get_ura_dora_indicators : DeckManager → List Tile
get_ura_dora_indicators dm = take dm.wang.ura_dora_index dm.wang.ura_dora_indicators

-- One entry of `Visible34`: `4 - remain`, clamped to 0 and 4.
unfoldable pub visible_entry : ℤ → ℕ
visible_entry remain =
    let v = pos 4 -ℤ remain in
    if ltb_ℤ v (pos 0) then 0 else if ltb_ℤ (pos 4) v then 4 else pos_part v

-- The entries from `i` on, with `n` rounds left.
unfoldable pub visible_from : ℕ → ℕ → List ℤ → List ℕ
unfolding visible_entry
visible_from zero i remain34 = []
visible_from (suc n) i remain34 =
    visible_entry (get_or remain34 i (pos 0)) ∷ visible_from n (i + 1) remain34

unfoldable pub visible34 : DeckManager → List ℕ
unfolding visible_from
visible34 dm = visible_from 34 0 dm.remain34
