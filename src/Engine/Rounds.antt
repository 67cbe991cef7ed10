-- ===== src/Engine/Rounds.antt =====
-- game/runtime/engines/mahjong/riichi_mahjong_4p_engine.go: how a round starts.
pub mod Hands
pub mod Dealing
use go_mahjong.Common.{
  ℕ, zero, suc, Bool, true, false, not, List, [], ◌∷◌, Option, none, some, ltb, if◌then◌else◌,
}
use go_mahjong.Deck.{Rng, DeckManager, new_deck_manager, init_round, deal, reveal_dora_indicator}
use go_mahjong.Player.{PlayerImage, add_tile, draw_tile}
use go_mahjong.Engine.{RiichiMahjong4p, update_player}
use go_mahjong.Engine.Turns.{drop_turn}

unfoldable pub clear_player : PlayerImage → PlayerImage
clear_player p = record p {
  tiles = [];
  discard_pile = [];
  melds = [];
  is_riichi = false;
  is_waiting = false;
  newest_tile = none;
  discarded_tiles = [];
  tenpai_waits = [];
  tenpai_valid = false;
}

unfoldable pub clear_players : List (Option PlayerImage) → List (Option PlayerImage)
clear_players [] = []
clear_players (none ∷ ps) = none ∷ clear_players ps
clear_players (some p ∷ ps) = some (clear_player p) ∷ clear_players ps

-- The deals in order, each to its seat; false once the wall has run out.
unfoldable pub deal_loop :
    List ℕ
    → DeckManager
    → List (Option PlayerImage)
    → DeckManager × List (Option PlayerImage) × Bool
deal_loop [] dm ps = (dm, ps, true)
deal_loop (seat ∷ seats) dm ps =
    let (dm', dealt) = deal dm in
    elim dealt [
      | none ↦ (dm', ps, false)
      | some t ↦ deal_loop seats dm' (update_player seat (add_tile t) ps)
    ]

abbrev pub repeat_seats : ℕ → List ℕ
repeat_seats zero = []
repeat_seats (suc n) = 0 ∷ 1 ∷ 2 ∷ 3 ∷ repeat_seats n

unfoldable pub distribute_card :
    ℕ → DeckManager → List (Option PlayerImage) → DeckManager × List (Option PlayerImage)
distribute_card dealer dm ps =
    let (dm1, ps1, ok) = deal_loop (repeat_seats 13) dm (clear_players ps) in
    let (dm2, dealt) = deal dm1 in
    if not ok
    then (dm1, ps1)
    else if ltb dealer 4
    then elim dealt [ none ↦ (dm2, ps1) | some t ↦ (dm2, update_player dealer (draw_tile t) ps1) ]
    else (dm1, ps1)

unfoldable pub handle_start_round_event : Rng → RiichiMahjong4p → RiichiMahjong4p
handle_start_round_event rng eg =
    let dm : DeckManager = elim eg.deck_manager [ none ↦ new_deck_manager true | some dm ↦ dm ] in
    let dm1 = (reveal_dora_indicator (init_round rng dm)).0 in
    let (dm2, ps) = distribute_card eg.situation.dealer_index dm1 eg.players in
    drop_turn eg.situation.dealer_index true (record eg { deck_manager = some dm2; players = ps })
