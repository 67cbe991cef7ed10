-- ===== src/Engine/Reactions.antt =====
-- game/runtime/engines/mahjong/riichi_mahjong_4p_engine.go: the answers to a dropped tile, which of
-- them counts, and how it is carried out.
pub mod Priority
pub mod Calls
pub mod Laid
pub mod Moved
pub mod Passed
use go_mahjong.Common.{
  ℕ, zero, suc, ◌+◌, ◌%◌, Bool, true, false, not, ◌&&◌, ◌||◌, List, [], ◌∷◌, ◌++◌, Option, none,
  some, Perm, ltb, leb, ◌==◌, if◌then◌else◌, length, last?, init, set, get_or,
}
use go_mahjong.Common.Int.{pos}
use go_mahjong.Tiles.{Tile, same_tile}
use go_mahjong.Player.{PlayerImage, Meld, MeldType, remove_tile}
use go_mahjong.Turn.{
  TurnManager, stop, next_turn, enter_choosing_phase, enter_drop_phase, get_player_ticker,
  get_state, default_round_compensation,
}
use go_mahjong.Yaku.{draw_3ron, ron, HuClaim, player_at}
use go_mahjong.Engine.{
  OperationType, hu, gang, peng, chi, skip, PlayerOperation, PlayerReaction, RiichiMahjong4p,
  happen_damage_error, clear_last_discard, update_player,
}
use go_mahjong.Engine.Ending.{handle_round_over_event}
use go_mahjong.Engine.Turns.{is_wait_reactions, drop_turn}

-- The order in which Go visits the reactions, a map, the n-th time that it ranges over them.
pub record MapOrder : Type 0 where
  pub visit : ℕ → List (ℕ × PlayerReaction) → List (ℕ × PlayerReaction)
  pub visit-perm : (n : ℕ) (rs : List (ℕ × PlayerReaction)) → Perm (visit n rs) rs

pub record ReactionAction : Type 0 where
  pub type : OperationType
  pub player_seat : ℕ
  pub tiles : List Tile

abbrev pub same_type : OperationType → OperationType → Bool
same_type hu hu = true
same_type gang gang = true
same_type peng peng = true
same_type chi chi = true
same_type skip skip = true
same_type _ _ = false

abbrev pub chose : OperationType → PlayerReaction → Bool
chose type r = elim r.chosen_op [ none ↦ false | some op ↦ same_type op.type type ]

abbrev pub chosen_tiles : PlayerReaction → List Tile
chosen_tiles r = elim r.chosen_op [ none ↦ [] | some op ↦ op.tiles ]

-- One of the three loops: the first reaction that chose an operation of the type.
unfoldable pub select_type : OperationType → List (ℕ × PlayerReaction) → Option ReactionAction
select_type type [] = none
select_type type ((seat, r) ∷ rs) =
    let rest = select_type type rs in
    if chose type r
    then some (record { type = type; player_seat = seat; tiles = chosen_tiles r })
    else rest

unfoldable pub select_best_reaction : MapOrder → List (ℕ × PlayerReaction) → Option ReactionAction
select_best_reaction order rs = elim (select_type gang (order.visit 1 rs)) [
  | some action ↦ some action
  | none ↦ elim (select_type peng (order.visit 2 rs)) [
    | some action ↦ some action
    | none ↦ select_type chi (order.visit 3 rs)
  ]
]

-- The tiles that a call takes from the hand, one after the other, up to the first that is not there.
unfoldable pub remove_tiles : List Tile → PlayerImage → PlayerImage × Bool
remove_tiles [] p = (p, true)
remove_tiles (t ∷ ts) p =
    let (q, ok) = remove_tile t p in let rest = remove_tiles ts q in if ok then rest else (q, false)

-- The hands, the pile and the melds once the caller has the tiles in hand: the called tile leaves the
-- pile, and the meld is laid down.
unfoldable pub meld_players :
    ReactionAction
    → MeldType
    → ℕ
    → Tile
    → PlayerImage
    → List (Option PlayerImage)
    → List (Option PlayerImage)
meld_players action kind discarder called caller ps =
    let meld : Meld = record { type = kind; tiles = called ∷ action.tiles; from = pos discarder } in
    update_player action.player_seat (λ p. record p { melds = p.melds ++ meld ∷ [] })
      (update_player discarder (λ p. record p { discard_pile = init p.discard_pile })
        (update_player action.player_seat (λ p. caller) ps))

unfoldable pub call_meld :
    ℕ
    → MeldType
    → Bool
    → ReactionAction
    → ℕ
    → Tile
    → PlayerImage
    → RiichiMahjong4p
    → RiichiMahjong4p
call_meld expected kind need_tile action discarder called caller eg =
    let (caller', ok) = remove_tiles action.tiles caller in
    let took = record eg { players = update_player action.player_seat (λ p. caller') eg.players } in
    let melded = record eg {
      players = meld_players action kind discarder called caller' eg.players;
    } in
    if not (length action.tiles == expected)
    then happen_damage_error eg
    else if not ok
    then happen_damage_error took
    else drop_turn action.player_seat need_tile (clear_last_discard melded)

unfoldable pub execute_reaction : ReactionAction → RiichiMahjong4p → RiichiMahjong4p
execute_reaction action eg =
    let discarder = eg.last_discard.seat in
    let by_caller : Tile → RiichiMahjong4p = λ called.
      elim (player_at eg.players action.player_seat) [
        | none ↦ happen_damage_error eg
        | some caller ↦ elim action.type [
          | peng ↦ call_meld 2 MeldType.peng false action discarder called caller eg
          | chi ↦ call_meld 2 MeldType.chi false action discarder called caller eg
          | gang ↦ call_meld 3 MeldType.gang true action discarder called caller eg
          | hu ↦ happen_damage_error eg
          | skip ↦ happen_damage_error eg
        ]
      ] in
    if not eg.last_discard.valid
    then happen_damage_error eg
    else elim (player_at eg.players discarder) [
      | none ↦ happen_damage_error eg
      | some p ↦ elim (last? p.discard_pile) [
        | none ↦ happen_damage_error eg
        | some called ↦
            if not (same_tile called eg.last_discard.tile)
            then happen_damage_error eg
            else by_caller called
      ]
    ]

unfoldable pub ron_seats : List (ℕ × PlayerReaction) → List ℕ
ron_seats [] = []
ron_seats ((seat, r) ∷ rs) = let rest = ron_seats rs in if chose hu r then seat ∷ rest else rest

unfoldable pub ron_claims : List ℕ → ℕ → Tile → List HuClaim
ron_claims [] loser tile = []
ron_claims (w ∷ ws) loser tile =
    record { winner_seat = w; has_loser = true; loser_seat = loser; win_tile = tile }
    ∷ ron_claims ws loser tile

-- Three wins on one tile end the round in a draw; without any call the next seat drops a tile.
unfoldable pub handle_reaction_complete : MapOrder → RiichiMahjong4p → RiichiMahjong4p
handle_reaction_complete order eg =
    let eg1 = record eg { turn_manager = enter_choosing_phase eg.turn_manager } in
    let seats = ron_seats (order.visit 0 eg1.reactions) in
    let claims = ron_claims seats eg1.last_discard.seat eg1.last_discard.tile in
    let (tm2, next) = next_turn eg1.turn_manager in
    let called : RiichiMahjong4p = elim (select_best_reaction order eg1.reactions) [
      | none ↦ record eg1 {
        turn_manager = (enter_drop_phase next default_round_compensation tm2).0;
      }
      | some action ↦ execute_reaction action eg1
    ] in
    if not (is_wait_reactions (get_state eg.turn_manager))
    then happen_damage_error eg
    else if leb 3 (length seats)
    then handle_round_over_event [] draw_3ron eg1
    else if ltb 0 (length seats)
    then handle_round_over_event claims ron eg1
    else called

unfoldable pub is_reaction_complete : List (ℕ × PlayerReaction) → Bool
is_reaction_complete [] = true
is_reaction_complete ((seat, r) ∷ rs) = r.responded && is_reaction_complete rs

unfoldable pub find_reaction : ℕ → List (ℕ × PlayerReaction) → Option PlayerReaction
find_reaction seat [] = none
find_reaction seat ((s, r) ∷ rs) =
    let rest = find_reaction seat rs in if s == seat then some r else rest

unfoldable pub respond : ℕ → PlayerOperation → List (ℕ × PlayerReaction) → List (ℕ × PlayerReaction)
respond seat op [] = []
respond seat op ((s, r) ∷ rs) =
    let rest = respond seat op rs in
    if s == seat
    then (s, record r { chosen_op = some op; responded = true }) ∷ rs
    else (s, r) ∷ rest

unfoldable pub stop_clock : ℕ → TurnManager → TurnManager × Bool
stop_clock seat tm =
    let (ticker, ok) = stop (get_player_ticker tm seat) in
    (record tm { tickers = set tm.tickers seat ticker }, ok)

-- An answer counts if it stops the clock of its seat.
unfoldable pub record_player_response :
    MapOrder → ℕ → PlayerOperation → RiichiMahjong4p → RiichiMahjong4p
record_player_response order seat op eg =
    let (tm, ok) = stop_clock seat eg.turn_manager in
    let eg1 = record eg { turn_manager = tm } in
    let eg2 = record eg1 { reactions = respond seat op eg1.reactions } in
    if not ok then eg else elim (find_reaction seat eg1.reactions) [
      | none ↦ eg1
      | some r ↦
          if is_reaction_complete eg2.reactions then handle_reaction_complete order eg2 else eg2
    ]
