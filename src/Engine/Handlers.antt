-- ===== src/Engine/Handlers.antt =====
-- game/runtime/engines/mahjong/riichi_mahjong_4p_engine.go: the handlers of a drop, a riichi and a clock
-- that runs out, and `processEvent`, which takes one event at a time.
use Prim.Native.String.{String}
pub mod Riichi
use go_mahjong.Common.{
  ℕ, zero, suc, ◌+◌, Bool, true, false, not, ◌&&◌, List, [], ◌∷◌, ◌++◌, Option, none, some, ltb,
  leb, ◌==◌, if◌then◌else◌, length, get_or, set, init, count_by, take, drop,
}
use go_mahjong.Common.Int.{ℤ, pos, negsuc}
use go_mahjong.Tiles.{Tile, TileType, zero_tile, wind_string}
use go_mahjong.Deck.{
  Rng, DeckManager, new_deck_manager, init_round, deal, draw_kan_tile, remaining_kan_tiles, can_kan,
  reveal_dora_indicator,
}
use go_mahjong.Player.{
  PlayerImage, Meld, MeldType, add_tile, draw_tile, remove_tile, discard_tile,
  discard_newest_or_last, add_points,
}
use go_mahjong.Turn.{
  TurnManager, get_current_player, get_state, TurnState, wait_main, wait_reactions,
}
use go_mahjong.Yaku.{RoundEnd, draw_4kan, tsumo, HuClaim, player_at, Situation}
use go_mahjong.Engine.{
  OperationType, hu, gang, peng, chi, skip, PlayerOperation, PlayerReaction, RiichiMahjong4p,
  GameEvent, drop_tile, ankan_event, kakan_event, peng_event, gang_event, chi_event, rong_hu,
  touch_hu, riichi, reconnect, timeout_event, start_round, happen_damage_error, set_last_discard,
  update_player,
}
use go_mahjong.Engine.Ending.{handle_round_over_event}
use go_mahjong.Engine.Turns.{is_wait_main, is_wait_reactions, enter_drop, drop_turn, wait_reaction}
use go_mahjong.Engine.Answers.{get_seat_index, handle_answer, handle_touch_hu_event}
use go_mahjong.Engine.Kans.{handle_ankan_event, handle_kakan_event}
use go_mahjong.Engine.Rounds.{handle_start_round_event}
use go_mahjong.Engine.Reactions.{
  MapOrder, same_type, find_reaction, stop_clock, record_player_response,
}

unfoldable pub handle_drop_tile_event : String → Tile → RiichiMahjong4p → RiichiMahjong4p
handle_drop_tile_event user tile eg =
    if not (is_wait_main (get_state eg.turn_manager))
    then eg
    else elim (get_seat_index user eg.user_map) [
      | none ↦ eg
      | some seat ↦
          let (tm, stopped) = stop_clock seat eg.turn_manager in
          let eg1 = record eg { turn_manager = tm } in
          if not (seat == get_current_player eg.turn_manager)
          then eg
          else if not stopped
          then eg
          else elim (player_at eg.players seat) [
            | none ↦ eg1
            | some p ↦
                let (q, ok) = discard_tile tile p in
                let eg2 = record eg1 { players = update_player seat (λ r. q) eg1.players } in
                if ok then wait_reaction seat (set_last_discard seat tile eg2) else eg1
          ]
    ]

unfoldable pub handle_drop_timeout : ℕ → RiichiMahjong4p → RiichiMahjong4p
handle_drop_timeout seat eg = elim (player_at eg.players seat) [
  | none ↦ happen_damage_error eg
  | some p ↦
      let (q, dropped) = discard_newest_or_last p in
      if length p.tiles == 0 then happen_damage_error eg else elim dropped [
        | none ↦ happen_damage_error eg
        | some t ↦ wait_reaction seat (
            set_last_discard seat t
              (record eg { players = update_player seat (λ r. q) eg.players }))
      ]
]

unfoldable pub handle_reaction_timeout : MapOrder → ℕ → RiichiMahjong4p → RiichiMahjong4p
handle_reaction_timeout order seat eg =
    record_player_response order seat (record { type = skip; tiles = [] }) eg

unfoldable pub handle_timeout_event : MapOrder → ℕ → RiichiMahjong4p → RiichiMahjong4p
handle_timeout_event order seat eg = elim (get_state eg.turn_manager) [
  | wait_main ↦ handle_drop_timeout seat eg
  | wait_reactions ↦ handle_reaction_timeout order seat eg
  | _ ↦ eg
]

-- The stick of 1000 points that a riichi puts on the table.
unfoldable pub handle_riichi_event : String → RiichiMahjong4p → RiichiMahjong4p
handle_riichi_event user eg = elim (get_seat_index user eg.user_map) [
  | none ↦ eg
  | some seat ↦ elim (player_at eg.players seat) [
    | none ↦ eg
    | some p ↦ record eg {
      players =
          update_player seat
            (λ r. add_points (negsuc 999) (record r { is_riichi = true; is_waiting = true }))
            eg.players;
      situation = record eg.situation { riichi_sticks = eg.situation.riichi_sticks + 1 };
    }
  ]
]

unfoldable pub process_event : Rng → MapOrder → GameEvent → RiichiMahjong4p → RiichiMahjong4p
process_event rng order (drop_tile user tile) eg = handle_drop_tile_event user tile eg
process_event rng order (peng_event user) eg = handle_answer order peng user eg
process_event rng order (gang_event user) eg = handle_answer order gang user eg
process_event rng order (ankan_event user tile) eg = handle_ankan_event user tile eg
process_event rng order (kakan_event user tile) eg = handle_kakan_event user tile eg
process_event rng order (chi_event user) eg = handle_answer order chi user eg
process_event rng order (rong_hu user) eg = handle_answer order hu user eg
process_event rng order (touch_hu user) eg = handle_touch_hu_event user eg
process_event rng order (riichi user) eg = handle_riichi_event user eg
process_event rng order (reconnect user) eg = eg
process_event rng order (timeout_event seat) eg = handle_timeout_event order seat eg
process_event rng order start_round eg = handle_start_round_event rng eg
