-- ===== src/Examples.antt =====
-- Hands, players, decks and games on which the theorems are applied.
mod Hands
mod Tables
mod Games
mod Calls
mod Packets
mod Distances
mod Lobby
mod Waiting
mod Seating
mod Sessions
use go_mahjong.Common.{
  ℕ, zero, suc, Bool, true, false, List, [], ◌∷◌, ◌++◌, Option, none, some, replicate,
}
use go_mahjong.Common.Int.{ℤ, pos}
use go_mahjong.Tiles.{Tile}
use go_mahjong.Deck.{Rng, DeckManager, new_deck_manager}
use go_mahjong.Player.{PlayerImage, new_player_image}
use go_mahjong.Turn.{TurnManager, new_turn_manager, new_player_ticker}
use go_mahjong.Yaku.{Situation, HuClaim}
use go_mahjong.Engine.{RiichiMahjong4p}
use go_mahjong.Search.{Hand34}
use mathlib.Core.List.Perm

-- A shuffle that leaves the tiles in their order.
abbrev pub keep_order : Rng
keep_order = record { shuffle = λ ts. ts; shuffle-perm = λ ts. Perm.refl ts }

-- 111 1 2 3: a triplet and a run over the same type.
abbrev pub two_groups : Hand34
two_groups = 4 ∷ 1 ∷ 1 ∷ replicate 31 0

-- Three runs and a pair of greens beside one called meld.
abbrev pub one_called : Hand34
one_called = 1 ∷ 1 ∷ 1 ∷ 1 ∷ 1 ∷ 1 ∷ 1 ∷ 1 ∷ 1 ∷ replicate 23 0 ++ 2 ∷ 0 ∷ []

-- The same hand with one green: it waits for the other.
abbrev pub waits_green : Hand34
waits_green = 1 ∷ 1 ∷ 1 ∷ 1 ∷ 1 ∷ 1 ∷ 1 ∷ 1 ∷ 1 ∷ replicate 23 0 ++ 1 ∷ 0 ∷ []

-- Four of one type and five pairs.
abbrev pub six_types : Hand34
six_types = 4 ∷ 2 ∷ 2 ∷ 2 ∷ 2 ∷ 2 ∷ replicate 28 0

abbrev pub tile : ℕ → ℕ → Tile
tile type id = record { type = type; id = id }

abbrev pub thirteen_tiles : List Tile
thirteen_tiles =
    tile 4 0
    ∷ tile 4 1
    ∷ tile 4 2
    ∷ tile 9 0
    ∷ tile 10 0
    ∷ tile 11 0
    ∷ tile 12 0
    ∷ tile 13 0
    ∷ tile 14 0
    ∷ tile 27 0
    ∷ tile 27 1
    ∷ tile 30 0
    ∷ tile 30 1
    ∷ []

abbrev pub player : ℕ → PlayerImage
player seat = record (new_player_image "" seat (pos 25000)) { tiles = thirteen_tiles }

abbrev pub waiting_player : PlayerImage
waiting_player = record (player 0) {
  tenpai_valid = true;
  tenpai_waits = (27, record { furiten = false; ron_has_yaku = true; tsumo_has_yaku = true }) ∷ [];
}

abbrev pub players : List (Option PlayerImage)
players = some waiting_player ∷ some (player 1) ∷ some (player 2) ∷ some (player 3) ∷ []

abbrev pub situation : Situation
situation = record {
  dealer_index = 0;
  honba = 1;
  round_wind = 0;
  round_number = 1;
  riichi_sticks = 2;
}

abbrev pub turn_manager : TurnManager
turn_manager =
    new_turn_manager (
      new_player_ticker 30
      ∷ new_player_ticker 30
      ∷ new_player_ticker 30
      ∷ new_player_ticker 30
      ∷ [])

abbrev pub game : RiichiMahjong4p
game = record {
  user_map = ("east", 0) ∷ ("south", 1) ∷ ("west", 2) ∷ ("north", 3) ∷ [];
  situation = situation;
  players = players;
  deck_manager = some (new_deck_manager true);
  turn_manager = turn_manager;
  last_discard = record { seat = 1; tile = tile 27 2; valid = true };
  game_events = [];
  closed = false;
  reactions = [];
  destroyed = false;
}

abbrev pub claim_of : ℕ → ℕ → HuClaim
claim_of winner loser = record {
  winner_seat = winner;
  has_loser = true;
  loser_seat = loser;
  win_tile = tile 27 2;
}
