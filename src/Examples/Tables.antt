-- ===== src/Examples/Tables.antt =====
-- The theorems of the deck, the players and the points, applied to a table.
use go_mahjong.Common.{
  ◌*◌, ◌%◌, ◌≡◌, ◌<◌, refl, true, List, [], ◌∷◌, ◌++◌, some, Perm, arith, length, get_or, count_by,
  ◌==◌,
}
use go_mahjong.Tiles.{new_tile_deck}
use go_mahjong.Tiles.Generate.{count_type-new_tile_deck}
use go_mahjong.Deck.{new_deck_manager, init_round, visible34}
use go_mahjong.Deck.Invariant.{IsValid, unseen, count_type}
use go_mahjong.Deck.Trace.{
  Call, draws, deals, draws_kan_tile, reveals_dora, run, run-init_round, visible34-run,
}
use go_mahjong.Player.{PlayerImage, draw_tile, discard_tile, discard_newest_or_last}
use go_mahjong.Player.Laws.{
  Discards, discard_tile_lem, discard_newest_or_last_lem, Drops, draw_tile-NewestInHand,
}
use go_mahjong.Yaku.{ron, claim_context, eval_claim_yakuman}
use go_mahjong.Yaku.Eval.{passed, eval_claim_yakuman_lem}
use go_mahjong.Score.{call_hu_points}
use go_mahjong.Score.Laws.{call_hu_points_positive}
use go_mahjong.Examples.{keep_order, tile, player, players, situation, claim_of}

abbrev some_calls : List Call
some_calls = reveals_dora ∷ deals ∷ deals ∷ draws ∷ draws_kan_tile ∷ []

run-init_round_example :
    let (after, seen) = run some_calls (init_round keep_order (new_deck_manager true)) [] in
    IsValid after × Perm (seen ++ unseen after) (new_tile_deck true)
unfolding new_deck_manager
run-init_round_example = run-init_round keep_order (new_deck_manager true) some_calls

visible34-run_example :
    let (after, seen) = run some_calls (init_round keep_order (new_deck_manager true)) [] in
    get_or (visible34 after) 0 0 ≡ count_type 0 seen
visible34-run_example = visible34-run keep_order (new_deck_manager true) some_calls 0 (omega arith)

count_type-new_tile_deck_example : count_by (λ x. x.type == 33) (new_tile_deck true) ≡ 4
count_type-new_tile_deck_example = count_type-new_tile_deck true 33 (omega arith)

discard_tile_lem_example : Discards (tile 4 1) (player 1) (discard_tile (tile 4 1) (player 1))
discard_tile_lem_example = discard_tile_lem (tile 4 1) (player 1)

abbrev drawn : PlayerImage
drawn = draw_tile (tile 33 3) (player 2)

discard_newest_or_last_lem_example : Drops drawn (discard_newest_or_last drawn)
discard_newest_or_last_lem_example =
    discard_newest_or_last_lem drawn (draw_tile-NewestInHand (tile 33 3) (player 2))

eval_claim_yakuman_lem_example :
    let yakus = passed (claim_context players situation (claim_of 0 1) (some ron)) in
    eval_claim_yakuman players situation (claim_of 0 1) ron ≡ (0, 2 * length yakus, yakus)
eval_claim_yakuman_lem_example = eval_claim_yakuman_lem players situation (claim_of 0 1) ron

call_hu_points_positive_example :
    let (han, fu, points, yakus) = call_hu_points players situation (claim_of 1 2) ron in
    (0 < points) × (points % 100 ≡ 0)
call_hu_points_positive_example =
    call_hu_points_positive players situation (claim_of 1 2) ron (player 1) refl
