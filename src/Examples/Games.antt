-- ===== src/Examples/Games.antt =====
-- The theorems of the clocks, the answers and the ends of a round, applied to a game.
use go_mahjong.Common.{ℕ, ◌+◌, ◌%◌, ◌≡◌, refl, true, List, [], ◌∷◌, some, arith, if◌then◌else◌}
use go_mahjong.Tiles.{Tile}
use go_mahjong.Turn.{
  PlayerTicker, TurnManager, wait_reactions, get_state, new_player_ticker, enter_drop_phase_amid,
  get_player_ticker, wait_main, stop_if_running,
}
use go_mahjong.Turn.Ticker.{
  Event, starts, registers, expires, stops, finishes, Alive, run_events, run_events-Alive,
  all_accepted, run_events-callbacks,
}
use go_mahjong.Turn.Loops.{loop_finishes, run_loops}
use go_mahjong.Turn.Stopping.{Stopped}
use go_mahjong.Turn.Phases.{Meanwhile, Entered, enter_drop_phase_amid_lem}
use go_mahjong.Yaku.{HuClaim, ron}
use go_mahjong.Engine.{RiichiMahjong4p, gang, peng, skip, PlayerReaction, OperationType}
use go_mahjong.Engine.Ending.{handle_round_over_event, select_stick_winner_ron_a}
use go_mahjong.Engine.Ending.Sticks.{StickWinner, select_stick_winner_ron_a-StickWinner}
use go_mahjong.Engine.Ending.Points.{sits, no_one}
use go_mahjong.Engine.Ending.Pot.{pot}
use go_mahjong.Engine.Ending.Conserved.{
  SeatedClaims, no_claims, claim_then, Table, handle_round_over_event-pot,
}
use go_mahjong.Engine.Options.{get_gang_options, get_peng_options}
use go_mahjong.Engine.Options.Choices.{Every}
use go_mahjong.Engine.Reactions.{handle_reaction_complete, MapOrder, select_best_reaction}
use go_mahjong.Engine.Reactions.Priority.{Best, select_best_reaction-Best}
use go_mahjong.Engine.Reactions.Passed.{handle_reaction_complete-pass}
use go_mahjong.Engine.Reactions.Calls.{Callable, options-Callable}
use go_mahjong.Engine.Handlers.{handle_riichi_event}
use go_mahjong.Engine.Handlers.Riichi.{handle_riichi_event-pot}
use go_mahjong.Engine.Rounds.{handle_start_round_event}
use go_mahjong.Engine.Rounds.Hands.{hand_size}
use go_mahjong.Engine.Rounds.Dealing.{handle_start_round_event-sizes}
use go_mahjong.Examples.{keep_order, tile, player, game, turn_manager, claim_of}
use mathlib.Core.List.Perm

-- A clock that is started twice and stopped, and then runs out.
abbrev some_events : List Event
some_events =
    starts 20
    ∷ starts 5
    ∷ registers 0
    ∷ stops
    ∷ finishes 0 3
    ∷ starts 7
    ∷ registers 0
    ∷ expires 0
    ∷ finishes 0 7
    ∷ []

run_events-callbacks_example :
    let pt = run_events (new_player_ticker 30) some_events in
    Alive pt
    × (pt.on_timeouts + pt.on_stops + (if pt.is_running then 1 else 0)
        ≡ all_accepted (new_player_ticker 30) some_events)
run_events-callbacks_example = run_events-callbacks 30 some_events

-- The clocks of the second and the third player run, and the goroutine of the third ends before its
-- clock is given its time.
abbrev ending_clock : PlayerTicker
ending_clock = run_events (new_player_ticker 20) (starts 20 ∷ registers 0 ∷ [])

ending_clock-Alive : Alive ending_clock
unfolding new_player_ticker
ending_clock-Alive =
    run_events-Alive (new_player_ticker 20) _ (record { one_loop = refl; runs = refl })

abbrev ending_table : TurnManager
ending_table = record turn_manager {
  tickers = new_player_ticker 20 ∷ ending_clock ∷ ending_clock ∷ new_player_ticker 20 ∷ [];
}

abbrev ends_in_time : Meanwhile
ends_in_time = record { before_read = loop_finishes 0 3 ∷ []; before_set = []; before_start = [] }

enter_drop_phase_amid_lem_example :
    let (tm', ok) =
      enter_drop_phase_amid
        (run_loops (loop_finishes 0 3 ∷ []))
        (run_loops [])
        (run_loops [])
        2
        5
        ending_table in
    (tm'.turn_pointer ≡ 2)
    × (tm'.state ≡ wait_main)
    × Stopped ending_clock (get_player_ticker tm' 1)
    × Stopped ending_clock (stop_if_running ending_clock)
    × Entered ends_in_time 5 ending_clock (get_player_ticker tm' 2) ok
unfolding get_player_ticker
enter_drop_phase_amid_lem_example =
    enter_drop_phase_amid_lem ends_in_time 2 5 ending_table refl (omega arith) ending_clock-Alive 1
      (omega arith) (λ e. omega (arith, e))

abbrev in_order : MapOrder
in_order = record { visit = λ n rs. rs; visit-perm = λ n rs. Perm.refl rs }

abbrev chose_it : OperationType → List Tile → PlayerReaction
chose_it type tiles = record {
  operations = [];
  chosen_op = some (record { type = type; tiles = tiles });
  responded = true;
}

abbrev some_answers : List (ℕ × PlayerReaction)
some_answers =
    (0, chose_it peng (tile 27 0 ∷ tile 27 1 ∷ []))
    ∷ (2, chose_it skip [])
    ∷ (3, chose_it gang (tile 27 0 ∷ tile 27 1 ∷ tile 27 3 ∷ []))
    ∷ []

select_best_reaction-Best_example : Best some_answers (select_best_reaction in_order some_answers)
select_best_reaction-Best_example = select_best_reaction-Best in_order some_answers

options-Callable_example :
    Every (Callable gang 3 (tile 4 3) (player 1)) (get_gang_options (some (player 1)) (tile 4 3))
    × Every (Callable peng 2 (tile 4 3) (player 1)) (get_peng_options (some (player 1)) (tile 4 3))
options-Callable_example = options-Callable (player 1) (tile 4 3)

game-Table : Table game
game-Table = record { seated = sits _ _ (sits _ _ (sits _ _ (sits _ _ no_one))); four = refl }

-- Two wins on one tile.
abbrev two_claims : List HuClaim
two_claims = claim_of 0 1 ∷ claim_of 3 1 ∷ []

two_claims-SeatedClaims : SeatedClaims ron two_claims
two_claims-SeatedClaims =
    claim_then _ _ (omega arith) (λ e. (refl, omega arith))
      (claim_then _ _ (omega arith) (λ e. (refl, omega arith)) no_claims)

handle_round_over_event-pot_example : pot (handle_round_over_event two_claims ron game) ≡ pot game
handle_round_over_event-pot_example =
    handle_round_over_event-pot two_claims ron game game-Table two_claims-SeatedClaims

handle_riichi_event-pot_example : pot (handle_riichi_event "west" game) ≡ pot game
handle_riichi_event-pot_example = handle_riichi_event-pot "west" game

handle_start_round_event-sizes_example :
    hand_size (handle_start_round_event keep_order game).players 0 ≡ 15
handle_start_round_event-sizes_example =
    handle_start_round_event-sizes keep_order game game-Table.seated game-Table.four (omega arith) 0
      (omega arith)

select_stick_winner_ron_a-StickWinner_example :
    StickWinner 1 two_claims (select_stick_winner_ron_a two_claims)
select_stick_winner_ron_a-StickWinner_example =
    select_stick_winner_ron_a-StickWinner (claim_of 0 1) (claim_of 3 1 ∷ [])

-- A game in which the only answer is to pass.
abbrev passed_game : RiichiMahjong4p
passed_game = record game {
  turn_manager = record turn_manager { state = wait_reactions };
  reactions = (2, chose_it skip []) ∷ [];
}

handle_reaction_complete-pass_example :
    let eg' = handle_reaction_complete in_order passed_game in
    eg' ≡ record passed_game {
      turn_manager = record {
        turn_pointer = (passed_game.turn_manager.turn_pointer + 1) % 4;
        state = wait_main;
        tickers = eg'.turn_manager.tickers;
      };
    }
unfolding get_state
handle_reaction_complete-pass_example =
    handle_reaction_complete-pass in_order passed_game refl
      (record { no_hu = refl; no_gang = refl; no_peng = refl; no_chi = refl })
