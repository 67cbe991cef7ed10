-- ===== src/Engine/Reactions/Moved.antt =====
-- A call that is carried out moves tiles between hand, pile and melds, and loses none.
use go_mahjong.Common.{
  ℕ, ◌+◌, ◌≡◌, ◌≢◌, Bool, true, false, List, [], ◌∷◌, ◌++◌, Option, some, last?,
}
use go_mahjong.Tiles.{Tile, same_tile}
use go_mahjong.Common.Int.{pos}
use go_mahjong.Player.{PlayerImage, MeldType}
use go_mahjong.Yaku.{player_at}
use go_mahjong.Engine.{OperationType, peng, gang, PlayerOperation, RiichiMahjong4p}
use go_mahjong.Engine.Options.Choices.{copies}
use go_mahjong.Engine.Turns.{drop_turn}
use go_mahjong.Engine.Reactions.{ReactionAction, execute_reaction}
use go_mahjong.Engine.Reactions.Laid.{table_copies}

-- The discard that the action calls is on the table, and another player calls it.
pub record Ready (action : ReactionAction) (eg : RiichiMahjong4p) (c d : PlayerImage)
    (called : Tile) : Type 0 where
  pub valid : eg.last_discard.valid ≡ true
  pub at_discarder : player_at eg.players eg.last_discard.seat ≡ some d
  pub last : last? d.discard_pile ≡ some called
  pub same : same_tile called eg.last_discard.tile ≡ true
  pub at_caller : player_at eg.players action.player_seat ≡ some c
  pub apart : action.player_seat ≢ eg.last_discard.seat

-- The calls that players are offered, with the tiles of the hand, the meld, and whether another tile
-- is drawn.
pub data MeldCall : OperationType → ℕ → MeldType → Bool → Type 0 where
  calls_peng : MeldCall peng 2 MeldType.peng false
  calls_gang : MeldCall gang 3 MeldType.gang true

-- The operation of an action.
abbrev pub operation_of : ReactionAction → PlayerOperation
operation_of action = record { type = action.type; tiles = action.tiles }

-- The caller has the meld and no longer its tiles of the hand, the pile of the discarder has lost the
-- called tile, no other player has changed, no tile is lost or doubled, and the turn goes on from there
-- for the caller, with no last discard.
pub record Moved (action : ReactionAction) (kind : MeldType) (need_tile : Bool)
    (eg : RiichiMahjong4p) (c d : PlayerImage) (called : Tile) : Type 0 where
  pub players : List (Option PlayerImage)
  pub result :
      execute_reaction action eg
      ≡ drop_turn action.player_seat need_tile
          (record eg { players = players; last_discard = record eg.last_discard { valid = false } })
  pub caller : PlayerImage
  pub at_caller : player_at players action.player_seat ≡ some caller
  pub melds :
      caller.melds
      ≡ c.melds
        ++ record { type = kind; tiles = called ∷ action.tiles; from = pos eg.last_discard.seat }
          ∷ []
  pub hand : (x : Tile) → copies x action.tiles + copies x caller.tiles ≡ copies x c.tiles
  pub own_pile : caller.discard_pile ≡ c.discard_pile
  pub rest : List Tile
  pub pile : d.discard_pile ≡ rest ++ called ∷ []
  pub at_discarder :
      player_at players eg.last_discard.seat ≡ some (record d { discard_pile = rest })
  pub others :
      (seat : ℕ)
      → action.player_seat ≢ seat
      → eg.last_discard.seat ≢ seat
      → player_at players seat ≡ player_at eg.players seat
  pub tiles : (x : Tile) → table_copies x players ≡ table_copies x eg.players
