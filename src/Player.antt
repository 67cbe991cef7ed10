-- ===== src/Player.antt =====
-- game/runtime/engines/mahjong/player_image.go: a player's hand, discards, calls and points.
-- A Go map with empty values is the list of its keys; `NewestTile` points to a private copy.
pub mod Laws
use Prim.Native.String.{String}
use go_mahjong.Common.{
  ℕ, zero, suc, ◌+◌, ◌-◌, Bool, true, false, ◌&&◌, ◌||◌, List, [], ◌∷◌, ◌++◌, Option, none, some,
  not, ltb, leb, ◌==◌, if◌then◌else◌, length, last?,
}
use go_mahjong.Common.Int.{ℤ, pos, ◌+ℤ◌, ◌-ℤ◌}
use go_mahjong.Tiles.{Tile, TileType, zero_tile, same_tile}

-- The strings "Peng", "Gang", "Chi", "Ankan" and "Kakan".
pub data MeldType : Type 0 where
  peng gang chi ankan kakan : MeldType

pub record Meld : Type 0 where
  pub type : MeldType
  pub tiles : List Tile
  pub from : ℤ

pub record TenpaiWaitState : Type 0 where
  pub furiten : Bool
  pub ron_has_yaku : Bool
  pub tsumo_has_yaku : Bool

pub record PlayerImage : Type 0 where
  pub user_id : String
  pub seat_index : ℕ
  pub tiles : List Tile
  pub discard_pile : List Tile
  pub melds : List Meld
  pub is_riichi : Bool
  pub is_waiting : Bool
  pub discarded_tiles : List TileType
  pub newest_tile : Option Tile
  pub points : ℤ
  pub tenpai_waits : List (TileType × TenpaiWaitState)
  pub tenpai_valid : Bool

unfoldable pub new_player_image : String → ℕ → ℤ → PlayerImage
new_player_image user_id seat_index initial_points = record {
  user_id = user_id;
  seat_index = seat_index;
  tiles = [];
  discard_pile = [];
  melds = [];
  is_riichi = false;
  is_waiting = false;
  discarded_tiles = [];
  newest_tile = none;
  points = initial_points;
  tenpai_waits = [];
  tenpai_valid = false;
}

abbrev pub has_type : TileType → List TileType → Bool
has_type t [] = false
has_type t (u ∷ us) = u == t || has_type t us

unfoldable pub add_discarded_tile : Tile → PlayerImage → PlayerImage
add_discarded_tile tile p = record p {
  discarded_tiles =
      if has_type tile.type p.discarded_tiles
      then p.discarded_tiles
      else tile.type ∷ p.discarded_tiles;
}

unfoldable pub has_discarded_tile : TileType → PlayerImage → Bool
has_discarded_tile t p = has_type t p.discarded_tiles

unfoldable pub set_newest_tile : Option Tile → PlayerImage → PlayerImage
set_newest_tile tile p = record p { newest_tile = tile }

unfoldable pub get_newest_tile : PlayerImage → Option Tile
get_newest_tile p = p.newest_tile

unfoldable pub add_points : ℤ → PlayerImage → PlayerImage
add_points points p = record p { points = p.points +ℤ points }

unfoldable pub subtract_points : ℤ → PlayerImage → PlayerImage
subtract_points points p = record p { points = p.points -ℤ points }

unfoldable pub get_points : PlayerImage → ℤ
get_points p = p.points

unfoldable pub add_tile : Tile → PlayerImage → PlayerImage
add_tile tile p = record p { tiles = p.tiles ++ tile ∷ [] }

unfoldable pub draw_tile : Tile → PlayerImage → PlayerImage
draw_tile tile p = record p { tiles = p.tiles ++ tile ∷ []; newest_tile = some tile }

-- The loop of `RemoveTile`: the list without the first such tile.
unfoldable pub remove_first : Tile → List Tile → Option (List Tile)
remove_first tile [] = none
remove_first tile (t ∷ ts) =
    let rest : Option (List Tile) = elim (remove_first tile ts) [
      | none ↦ none
      | some us ↦ some (t ∷ us)
    ] in
    if same_tile t tile then some ts else rest

unfoldable pub remove_tile : Tile → PlayerImage → PlayerImage × Bool
remove_tile tile p = elim (remove_first tile p.tiles) [
  | none ↦ (p, false)
  | some ts ↦ (record p { tiles = ts }, true)
]

-- The newest tile, unless it is the one that left the hand.
unfoldable pub clear_newest : Tile → Option Tile → Option Tile
clear_newest tile none = none
clear_newest tile (some newest) = if same_tile newest tile then none else some newest

unfoldable pub discard_tile : Tile → PlayerImage → PlayerImage × Bool
unfolding remove_tile add_discarded_tile clear_newest
discard_tile tile p =
    let (q, ok) = remove_tile tile p in
    let r = add_discarded_tile tile (record q { discard_pile = q.discard_pile ++ tile ∷ [] }) in
    if ok then (record r { newest_tile = clear_newest tile r.newest_tile }, true) else (p, false)

-- The tile that a timed-out player drops: the newest, or else the last of the hand.
unfoldable pub newest_or_last : PlayerImage → Option Tile
newest_or_last p = elim p.newest_tile [ none ↦ last? p.tiles | some t ↦ some t ]

unfoldable pub discard_newest_or_last : PlayerImage → PlayerImage × Option Tile
unfolding newest_or_last discard_tile
discard_newest_or_last p =
    let chosen : PlayerImage × Option Tile = elim (newest_or_last p) [
      | none ↦ (p, none)
      | some t ↦ let (q, ok) = discard_tile t p in if ok then (q, some t) else (p, none)
    ] in
    if not (length p.tiles == 14) then (p, none) else chosen
