-- ===== src/Examples/Calls.antt =====
-- A triplet called on a dropped tile.
use go_mahjong.Common.{[], ◌∷◌, some}
use go_mahjong.Player.{PlayerImage}
use go_mahjong.Engine.{peng, RiichiMahjong4p}
use go_mahjong.Engine.Reactions.{ReactionAction}
use go_mahjong.Engine.Reactions.Moved.{Moved}
use go_mahjong.Examples.{tile, player, game}

-- The second seat dropped an east wind, of which the third has two.
abbrev dropper : PlayerImage
dropper = record (player 1) { discard_pile = tile 30 1 ∷ tile 27 2 ∷ [] }

abbrev caller : PlayerImage
caller = record (player 2) { tiles = tile 27 0 ∷ tile 27 1 ∷ tile 33 0 ∷ [] }

abbrev dropped_game : RiichiMahjong4p
dropped_game = record game {
  players = some (player 0) ∷ some dropper ∷ some caller ∷ some (player 3) ∷ [];
}

abbrev call_east : ReactionAction
call_east = record { type = peng; player_seat = 2; tiles = tile 27 0 ∷ tile 27 1 ∷ [] }
