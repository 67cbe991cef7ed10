-- ===== src/Engine/Kans.antt =====
-- game/runtime/engines/mahjong/riichi_mahjong_4p_engine.go: the closed kan and the added kan of the
-- player whose turn it is.
use Prim.Native.String.{String}
use go_mahjong.Common.{
  ℕ, zero, suc, ◌+◌, Bool, true, false, not, List, [], ◌∷◌, ◌++◌, Option, none, some, ltb, leb,
  ◌==◌, if◌then◌else◌, length, count_by,
}
use go_mahjong.Common.Int.{ℤ, pos, negsuc}
use go_mahjong.Tiles.{Tile, TileType}
use go_mahjong.Deck.{DeckManager, draw_kan_tile, remaining_kan_tiles, can_kan}
use go_mahjong.Player.{PlayerImage, Meld, MeldType, add_tile, draw_tile, remove_tile}
use go_mahjong.Turn.{get_current_player, get_state}
use go_mahjong.Yaku.{draw_4kan, player_at}
use go_mahjong.Engine.{RiichiMahjong4p, happen_damage_error, update_player}
use go_mahjong.Engine.Ending.{handle_round_over_event}
use go_mahjong.Engine.Turns.{is_wait_main, enter_drop}
use go_mahjong.Engine.Answers.{get_seat_index}
use go_mahjong.Engine.Reactions.{stop_clock}

abbrev pub is_kan : MeldType → Bool
is_kan MeldType.gang = true
is_kan MeldType.kakan = true
is_kan MeldType.ankan = true
is_kan _ = false

unfoldable pub total_kans : List (Option PlayerImage) → ℕ
total_kans [] = 0
total_kans (none ∷ ps) = total_kans ps
total_kans (some p ∷ ps) = count_by (λ m. is_kan m.type) p.melds + total_kans ps

abbrev pub below_four : ℤ → Bool
below_four (pos n) = ltb n 4
below_four (negsuc n) = true

unfoldable pub check_four_kan_draw : RiichiMahjong4p → Bool
check_four_kan_draw eg =
    if leb 4 (total_kans eg.players)
    then elim eg.deck_manager [ none ↦ false | some dm ↦ below_four (remaining_kan_tiles dm) ]
    else false

-- After a kan: a tile from the dead wall, and the seat's turn goes on.
unfoldable pub replace_tile : ℕ → DeckManager → RiichiMahjong4p → Option RiichiMahjong4p
replace_tile seat dm eg =
    let (dm', drawn) = draw_kan_tile dm in
    elim drawn [
      | none ↦ none
      | some t ↦ some (record eg {
        deck_manager = some dm';
        players = update_player seat (draw_tile t) eg.players;
        turn_manager = (stop_clock seat eg.turn_manager).0;
      })
    ]

-- The loop from the end of the hand: what is left, and the tiles taken in the order taken.
unfoldable pub take_same : ℕ → TileType → List Tile → List Tile → List Tile × List Tile
take_same n type kept [] = (kept, [])
take_same zero type kept (t ∷ ts) = take_same zero type (t ∷ kept) ts
take_same (suc n) type kept (t ∷ ts) =
    let (left, taken) = take_same n type kept ts in
    let (left', taken') = take_same (suc n) type (t ∷ kept) ts in
    if t.type == type then (left, t ∷ taken) else (left', taken')

abbrev pub reverse_tiles : List Tile → List Tile → List Tile
reverse_tiles [] acc = acc
reverse_tiles (t ∷ ts) acc = reverse_tiles ts (t ∷ acc)

unfoldable pub ankan_hand : TileType → List Tile → List Tile × List Tile
ankan_hand type tiles = take_same 4 type [] (reverse_tiles tiles [])

abbrev pub ankan_meld : TileType → PlayerImage → PlayerImage
ankan_meld type p =
    let (left, taken) = ankan_hand type p.tiles in
    let meld : Meld = record { type = MeldType.ankan; tiles = taken; from = negsuc 0 } in
    record p { tiles = left; melds = p.melds ++ meld ∷ [] }

unfoldable pub finish_ankan : ℕ → RiichiMahjong4p → RiichiMahjong4p
finish_ankan seat eg =
    if check_four_kan_draw eg
    then handle_round_over_event [] draw_4kan eg
    else elim eg.deck_manager [
      | none ↦ happen_damage_error eg
      | some dm ↦
          if not (can_kan dm) then happen_damage_error eg else elim (replace_tile seat dm eg) [
            | none ↦ happen_damage_error (record eg { deck_manager = some (draw_kan_tile dm).0 })
            | some eg' ↦ enter_drop seat eg'
          ]
    ]

unfoldable pub handle_ankan : ℕ → Tile → RiichiMahjong4p → RiichiMahjong4p
handle_ankan seat tile eg = elim (player_at eg.players seat) [
  | none ↦ eg
  | some p ↦
      let (left, taken) = ankan_hand tile.type p.tiles in
      let took = record eg {
        players = update_player seat (λ p. record p { tiles = left }) eg.players;
      } in
      if ltb (count_by (λ t. t.type == tile.type) p.tiles) 4
      then eg
      else if not (length taken == 4)
      then happen_damage_error took
      else finish_ankan seat
          (record eg { players = update_player seat (ankan_meld tile.type) eg.players })
]

unfoldable pub handle_ankan_event : String → Tile → RiichiMahjong4p → RiichiMahjong4p
handle_ankan_event user tile eg =
    if not (is_wait_main (get_state eg.turn_manager))
    then eg
    else elim (get_seat_index user eg.user_map) [
      | none ↦ eg
      | some seat ↦
          if not (seat == get_current_player eg.turn_manager) then eg else handle_ankan seat tile eg
    ]

abbrev pub is_peng_of : TileType → Meld → Bool
is_peng_of type m = elim m.type [
  | MeldType.peng ↦ elim m.tiles [ [] ↦ false | t ∷ ts ↦ t.type == type ]
  | _ ↦ false
]

-- The first called triplet of the type becomes a kan.
unfoldable pub upgrade_peng : Tile → List Meld → Option (List Meld)
upgrade_peng tile [] = none
upgrade_peng tile (m ∷ ms) =
    let rest : Option (List Meld) = elim (upgrade_peng tile ms) [
      | none ↦ none
      | some ns ↦ some (m ∷ ns)
    ] in
    if is_peng_of tile.type m
    then some (record m { type = MeldType.kakan; tiles = m.tiles ++ tile ∷ [] } ∷ ms)
    else rest

-- An attempt that fails puts the tile back, at the end of the hand.
unfoldable pub handle_kakan : ℕ → Tile → RiichiMahjong4p → RiichiMahjong4p
handle_kakan seat tile eg = elim (player_at eg.players seat) [
  | none ↦ eg
  | some p ↦
      let (q, ok) = remove_tile tile p in
      let put_back : RiichiMahjong4p = record eg {
        players = update_player seat (λ r. add_tile tile q) eg.players;
      } in
      if not ok then eg else elim (upgrade_peng tile q.melds) [
        | none ↦ put_back
        | some melds ↦
            let up : RiichiMahjong4p = record eg {
              players = update_player seat (λ r. record q { melds = melds }) eg.players;
            } in
            elim eg.deck_manager [
              | none ↦ happen_damage_error put_back
              | some dm ↦
                  if check_four_kan_draw up
                  then handle_round_over_event [] draw_4kan put_back
                  else if not (can_kan dm)
                  then happen_damage_error put_back
                  else elim (replace_tile seat dm up) [
                    | none ↦
                        happen_damage_error
                          (record put_back { deck_manager = some (draw_kan_tile dm).0 })
                    | some eg' ↦ enter_drop seat eg'
                  ]
            ]
      ]
]

unfoldable pub handle_kakan_event : String → Tile → RiichiMahjong4p → RiichiMahjong4p
handle_kakan_event user tile eg =
    if not (is_wait_main (get_state eg.turn_manager))
    then eg
    else elim (get_seat_index user eg.user_map) [
      | none ↦ eg
      | some seat ↦
          if not (seat == get_current_player eg.turn_manager) then eg else handle_kakan seat tile eg
    ]
