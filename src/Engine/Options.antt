-- ===== src/Engine/Options.antt =====
-- game/runtime/engines/mahjong/opt_selector.go and checker.go: what the other players may do with a
-- dropped tile.
pub mod Choices
use go_mahjong.Common.{
  ℕ, zero, suc, ◌+◌, ◌%◌, Bool, true, false, not, ◌&&◌, List, [], ◌∷◌, ◌++◌, Option, none, some,
  ltb, leb, ◌==◌, if◌then◌else◌, length, last?, map, count_by,
}
use go_mahjong.Tiles.{Tile, TileType}
use go_mahjong.Player.{PlayerImage}
use go_mahjong.Yaku.{player_at}
use go_mahjong.Engine.{
  OperationType, hu, gang, peng, chi, PlayerOperation, PlayerReaction, RiichiMahjong4p,
}

abbrev pub is_same_tile : Tile → Tile → Bool
is_same_tile a b = a.type == b.type

-- Unfinished in the source: nobody may win on a discard.
unfoldable pub can_hu : Option PlayerImage → Tile → Bool
can_hu none tile = false
can_hu (some p) tile = if not p.is_waiting then false else false

unfoldable pub can_gang : Option PlayerImage → Tile → Bool
can_gang none tile = false
can_gang (some p) tile = leb 3 (count_by (λ t. is_same_tile t tile) p.tiles)

unfoldable pub can_peng : Option PlayerImage → Tile → Bool
can_peng none tile = false
can_peng (some p) tile = leb 2 (count_by (λ t. is_same_tile t tile) p.tiles)

-- Unfinished in the source as well.
unfoldable pub can_chi : Option PlayerImage → Tile → Bool
can_chi none tile = false
can_chi (some p) tile = false

unfoldable pub matching_tiles : Tile → List Tile → List Tile
matching_tiles dropped [] = []
matching_tiles dropped (t ∷ ts) =
    if is_same_tile t dropped then t ∷ matching_tiles dropped ts else matching_tiles dropped ts

abbrev pub cons_each : Tile → List (List Tile) → List (List Tile)
cons_each t tss = map (λ ts. t ∷ ts) tss

unfoldable pub singles : List Tile → List (List Tile)
singles [] = []
singles (t ∷ ts) = (t ∷ []) ∷ singles ts

-- The loops over i < j, and over i < j < k.
unfoldable pub pairs : List Tile → List (List Tile)
pairs [] = []
pairs (t ∷ ts) = cons_each t (singles ts) ++ pairs ts

unfoldable pub triples : List Tile → List (List Tile)
triples [] = []
triples (t ∷ ts) = cons_each t (pairs ts) ++ triples ts

unfoldable pub to_operations : OperationType → List (List Tile) → List PlayerOperation
to_operations type [] = []
to_operations type (ts ∷ tss) = record { type = type; tiles = ts } ∷ to_operations type tss

abbrev pub hand_of : Option PlayerImage → List Tile
hand_of none = []
hand_of (some p) = p.tiles

unfoldable pub get_peng_options : Option PlayerImage → Tile → List PlayerOperation
get_peng_options p dropped =
    let matching = matching_tiles dropped (hand_of p) in
    if not (can_peng p dropped)
    then []
    else if ltb (length matching) 2
    then []
    else to_operations peng (pairs matching)

unfoldable pub get_gang_options : Option PlayerImage → Tile → List PlayerOperation
get_gang_options p dropped =
    let matching = matching_tiles dropped (hand_of p) in
    if not (can_gang p dropped)
    then []
    else if ltb (length matching) 3
    then []
    else to_operations gang (triples matching)

-- Unfinished in the source: there are none.
unfoldable pub find_chi_combinations : List Tile → Tile → List (List Tile)
find_chi_combinations hand dropped = []

unfoldable pub get_chi_options : Option PlayerImage → Tile → List PlayerOperation
get_chi_options p dropped =
    if not (can_chi p dropped)
    then []
    else to_operations chi (find_chi_combinations (hand_of p) dropped)

unfoldable pub player_operations : ℕ → ℕ → Tile → Option PlayerImage → List PlayerOperation
player_operations dropping i dropped p =
    (if can_hu p dropped then record { type = hu; tiles = dropped ∷ [] } ∷ [] else [])
    ++ get_gang_options p dropped
    ++ get_peng_options p dropped
    ++ (if (dropping + 1) % 4 == i then get_chi_options p dropped else [])

unfoldable pub operations_loop :
    ℕ → ℕ → Tile → ℕ → List (Option PlayerImage) → List (ℕ × PlayerReaction)
operations_loop exclude dropping dropped i [] = []
operations_loop exclude dropping dropped i (p ∷ ps) =
    let rest = operations_loop exclude dropping dropped (suc i) ps in
    let ops = player_operations dropping i dropped p in
    if i == exclude
    then rest
    else if ltb 0 (length ops)
    then (i, record { operations = ops; chosen_op = none; responded = false }) ∷ rest
    else rest

unfoldable pub calculate_available_operations : ℕ → RiichiMahjong4p → List (ℕ × PlayerReaction)
calculate_available_operations exclude eg =
    let dropping = eg.turn_manager.turn_pointer in
    elim (player_at eg.players dropping) [
      | none ↦ []
      | some p ↦ elim (last? p.discard_pile) [
        | none ↦ []
        | some dropped ↦ operations_loop exclude dropping dropped 0 eg.players
      ]
    ]
