-- ===== src/Engine/Turns.antt =====
-- game/runtime/engines/mahjong/riichi_mahjong_4p_engine.go: a turn to drop a tile, and the wait for
-- what the others make of it.
use go_mahjong.Common.{ℕ, ◌+◌, Bool, true, false, not, List, [], ◌∷◌, none, some, if◌then◌else◌}
use go_mahjong.Deck.{draw}
use go_mahjong.Player.{draw_tile}
use go_mahjong.Turn.{
  TurnState, wait_main, selecting, wait_reactions, TurnManager, next_turn, enter_drop_phase,
  enter_selecting_phase, enter_reacting_phase, start_clock, get_player_ticker, get_state,
  default_round_compensation,
}
use go_mahjong.Yaku.{draw_exhaustive}
use go_mahjong.Engine.{RiichiMahjong4p, PlayerReaction, happen_damage_error, update_player}
use go_mahjong.Engine.Ending.{handle_round_over_event}
use go_mahjong.Engine.Options.{calculate_available_operations}

abbrev pub is_wait_main : TurnState → Bool
is_wait_main wait_main = true
is_wait_main _ = false

abbrev pub is_selecting : TurnState → Bool
is_selecting selecting = true
is_selecting _ = false

abbrev pub is_wait_reactions : TurnState → Bool
is_wait_reactions wait_reactions = true
is_wait_reactions _ = false

unfoldable pub enter_drop : ℕ → RiichiMahjong4p → RiichiMahjong4p
enter_drop seat eg =
    let (tm, ok) = enter_drop_phase seat default_round_compensation eg.turn_manager in
    let eg' = record eg { turn_manager = tm } in if ok then eg' else happen_damage_error eg'

-- `DropTurn`: with nothing left to draw the round ends in a draw.
unfoldable pub drop_turn : ℕ → Bool → RiichiMahjong4p → RiichiMahjong4p
drop_turn seat false eg = enter_drop seat eg
drop_turn seat true eg = elim eg.deck_manager [
  | none ↦ happen_damage_error eg
  | some dm ↦
      let (dm', drawn) = draw dm in
      let eg' = record eg { deck_manager = some dm' } in
      elim drawn [
        | none ↦ handle_round_over_event [] draw_exhaustive eg'
        | some t ↦
            enter_drop seat (record eg' { players = update_player seat (draw_tile t) eg'.players })
      ]
]

-- The clock of a seat that may react; a clock that does not start is only logged.
unfoldable pub start_reaction_clock : ℕ → TurnManager → TurnManager
start_reaction_clock seat tm = (start_clock seat ((get_player_ticker tm seat).available + 3) tm).0

unfoldable pub start_reaction_clocks : List (ℕ × PlayerReaction) → TurnManager → TurnManager
start_reaction_clocks [] tm = tm
start_reaction_clocks ((seat, r) ∷ rs) tm = start_reaction_clocks rs (start_reaction_clock seat tm)

unfoldable pub wait_reaction : ℕ → RiichiMahjong4p → RiichiMahjong4p
wait_reaction exclude eg =
    let eg1 = record eg { turn_manager = enter_selecting_phase eg.turn_manager } in
    let eg2 = record eg1 { reactions = calculate_available_operations exclude eg1 } in
    let (tm3, next) = next_turn eg2.turn_manager in
    let tm4 = enter_reacting_phase eg2.turn_manager in
    if not (is_wait_main (get_state eg.turn_manager)) then eg else elim eg2.reactions [
      | [] ↦ drop_turn next true (record eg2 { turn_manager = tm3 })
      | r ∷ rs ↦
          if not (is_selecting (get_state eg2.turn_manager))
          then eg2
          else record eg2 { turn_manager = start_reaction_clocks (r ∷ rs) tm4 }
    ]
