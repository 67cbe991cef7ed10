-- ===== src/Engine.antt =====
-- game/runtime/engines/mahjong/riichi_mahjong_4p_engine.go: the state of a game of four and its queue
-- of events. Messages to the clients, the log and the records of a game are left out.
pub mod Ending
pub mod Options
pub mod Turns
pub mod Reactions
pub mod Answers
pub mod Rounds
pub mod Kans
pub mod Handlers
use Prim.Native.String.{String}
use go_mahjong.Common.{
  ℕ, zero, suc, Bool, true, false, List, [], ◌∷◌, ◌++◌, Option, none, some, ltb, leb, if◌then◌else◌,
  length, get_or, set, map,
}
use go_mahjong.Tiles.{Tile, zero_tile}
use go_mahjong.Deck.{DeckManager}
use go_mahjong.Player.{PlayerImage}
use go_mahjong.Turn.{TurnManager}
use go_mahjong.Yaku.{Situation}

-- The strings "HU", "GANG", "PENG", "CHI" and "SKIP".
pub data OperationType : Type 0 where
  hu gang peng chi skip : OperationType

pub record PlayerOperation : Type 0 where
  pub type : OperationType
  pub tiles : List Tile

pub record PlayerReaction : Type 0 where
  pub operations : List PlayerOperation
  pub chosen_op : Option PlayerOperation
  pub responded : Bool

pub record LastDiscard : Type 0 where
  pub seat : ℕ
  pub tile : Tile
  pub valid : Bool

-- The events that `processEvent` handles, with the user who sent one.
pub data GameEvent : Type 0 where
  drop_tile ankan_event kakan_event : String → Tile → GameEvent
  peng_event gang_event chi_event rong_hu touch_hu riichi reconnect : String → GameEvent
  timeout_event : ℕ → GameEvent
  start_round : GameEvent

-- `reactions` lists the map by seat. `destroyed` says that the room was asked to be destroyed.
pub record RiichiMahjong4p : Type 0 where
  pub user_map : List (String × ℕ)
  pub situation : Situation
  pub players : List (Option PlayerImage)
  pub deck_manager : Option DeckManager
  pub turn_manager : TurnManager
  pub last_discard : LastDiscard
  pub game_events : List GameEvent
  pub closed : Bool
  pub reactions : List (ℕ × PlayerReaction)
  pub destroyed : Bool

-- The channel holds 256 events; one more is dropped.
unfoldable pub notify_event : GameEvent → RiichiMahjong4p → RiichiMahjong4p
notify_event event eg =
    if eg.closed
    then eg
    else if leb 256 (length eg.game_events)
    then eg
    else record eg { game_events = eg.game_events ++ event ∷ [] }

unfoldable pub terminate : RiichiMahjong4p → RiichiMahjong4p
terminate eg = record eg { destroyed = true }

unfoldable pub happen_damage_error : RiichiMahjong4p → RiichiMahjong4p
happen_damage_error eg = terminate eg

unfoldable pub clear_last_discard : RiichiMahjong4p → RiichiMahjong4p
clear_last_discard eg = record eg { last_discard = record eg.last_discard { valid = false } }

unfoldable pub set_last_discard : ℕ → Tile → RiichiMahjong4p → RiichiMahjong4p
set_last_discard seat tile eg = record eg {
  last_discard = record { seat = seat; tile = tile; valid = true };
}

-- The player at a seat, changed through its pointer.
unfoldable pub update_player :
    ℕ → (PlayerImage → PlayerImage) → List (Option PlayerImage) → List (Option PlayerImage)
update_player seat f [] = []
update_player zero f (none ∷ ps) = none ∷ ps
update_player zero f (some p ∷ ps) = some (f p) ∷ ps
update_player (suc seat) f (p ∷ ps) = p ∷ update_player seat f ps
