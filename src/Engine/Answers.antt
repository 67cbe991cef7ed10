-- ===== src/Engine/Answers.antt =====
-- game/runtime/engines/mahjong/riichi_mahjong_4p_engine.go: the answers of the users to a dropped tile,
-- and the wins that they declare. A player's seat is found by the user's name.
use Prim.Native.String.{String, compare}
use Prim.Native.Nat.{Ordering, eq}
use go_mahjong.Common.{ℕ, Bool, true, false, not, List, [], ◌∷◌, Option, none, some, if◌then◌else◌}
use go_mahjong.Turn.{get_state}
use go_mahjong.Yaku.{tsumo, player_at}
use go_mahjong.Engine.{OperationType, PlayerOperation, RiichiMahjong4p}
use go_mahjong.Engine.Ending.{handle_round_over_event}
use go_mahjong.Engine.Turns.{is_wait_reactions}
use go_mahjong.Engine.Reactions.{MapOrder, same_type, find_reaction, record_player_response}

abbrev pub is_equal : Ordering → Bool
is_equal eq = true
is_equal _ = false

abbrev pub same_user : String → String → Bool
same_user a b = is_equal (compare a b)

unfoldable pub get_seat_index : String → List (String × ℕ) → Option ℕ
get_seat_index user [] = none
get_seat_index user ((u, seat) ∷ us) =
    let rest = get_seat_index user us in if same_user u user then some seat else rest

unfoldable pub find_operation : OperationType → List PlayerOperation → Option PlayerOperation
find_operation type [] = none
find_operation type (op ∷ ops) =
    let rest = find_operation type ops in if same_type op.type type then some op else rest

-- The handlers of PENG, GANG, CHI and HU differ in the operation alone.
unfoldable pub handle_answer : MapOrder → OperationType → String → RiichiMahjong4p → RiichiMahjong4p
handle_answer order type user eg =
    if not (is_wait_reactions (get_state eg.turn_manager))
    then eg
    else elim (get_seat_index user eg.user_map) [
      | none ↦ eg
      | some seat ↦ elim (find_reaction seat eg.reactions) [
        | none ↦ eg
        | some r ↦ elim (find_operation type r.operations) [
          | none ↦ eg
          | some op ↦ record_player_response order seat op eg
        ]
      ]
    ]

unfoldable pub handle_touch_hu_event : String → RiichiMahjong4p → RiichiMahjong4p
handle_touch_hu_event user eg = elim (get_seat_index user eg.user_map) [
  | none ↦ eg
  | some seat ↦ elim (player_at eg.players seat) [
    | none ↦ eg
    | some p ↦ elim p.newest_tile [
      | none ↦ eg
      | some t ↦
          handle_round_over_event
            (record { winner_seat = seat; has_loser = false; loser_seat = 0; win_tile = t } ∷ [])
            tsumo eg
    ]
  ]
]
