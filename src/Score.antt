-- ===== src/Score.antt =====
-- game/runtime/engines/mahjong/score_calculator.go: fu and points of a win.
pub mod Laws
use go_mahjong.Common.{
  ℕ, zero, suc, ◌+◌, ◌-◌, ◌*◌, ◌/◌, ◌%◌, ◌^◌, Bool, true, false, not, ◌&&◌, ◌||◌, List, [], ◌∷◌,
  Option, none, some, ltb, leb, ◌==◌, if◌then◌else◌, length, get_or,
}
use go_mahjong.Tiles.{Tile, TileType, zero_tile, man1, man9, pin1, pin9, so1, so9, east, red}
use go_mahjong.Player.{PlayerImage, Meld, MeldType, peng, gang, chi, ankan, kakan}
use go_mahjong.Yaku.{
  Yaku, RoundEnd, draw_exhaustive, draw_3ron, draw_4kan, tsumo, ron, Situation, HuClaim, player_at,
  eval_claim_yakuman,
}

abbrev pub is_ron : RoundEnd → Bool
is_ron ron = true
is_ron _ = false

abbrev pub is_tsumo : RoundEnd → Bool
is_tsumo tsumo = true
is_tsumo _ = false

-- `int(math.Ceil(float64(x)/100.0)) * 100`: the quotient is exact enough for every x below 2 ^ 53.
unfoldable pub round_up_to100 : ℕ → ℕ
round_up_to100 x = (x + 99) / 100 * 100

unfoldable pub calculate_base_points : ℕ → ℕ → ℕ
calculate_base_points han fu = round_up_to100 (fu * 2 ^ (2 + han))

unfoldable pub get_fixed_points : ℕ → RoundEnd → Bool → ℕ
get_fixed_points han end_kind is_dealer =
    if is_ron end_kind
    then (if han == 5
        then (if is_dealer then 12000 else 8000)
        else if leb 6 han && leb han 7
        then (if is_dealer then 18000 else 12000)
        else if leb 8 han && leb han 10
        then (if is_dealer then 24000 else 16000)
        else if leb 11 han && leb han 12
        then (if is_dealer then 36000 else 24000)
        else 0)
    else (if han == 5
        then (if is_dealer then 4000 else 2000)
        else if leb 6 han && leb han 7
        then (if is_dealer then 6000 else 3000)
        else if leb 8 han && leb han 10
        then (if is_dealer then 8000 else 4000)
        else if leb 11 han && leb han 12
        then (if is_dealer then 12000 else 6000)
        else 0)

unfoldable pub is_yaochu : TileType → Bool
is_yaochu t =
    if leb east t && leb t red
    then true
    else if t == man1 || t == man9 || t == pin1 || t == pin9 || t == so1 || t == so9
    then true
    else false

-- The fu of one called meld; its first tile is read, and every meld has tiles.
unfoldable pub meld_fu : Meld → ℕ
meld_fu meld =
    let yaochu = is_yaochu (get_or meld.tiles 0 zero_tile).type in
    elim meld.type [
      | ankan ↦ if yaochu then 32 else 16
      | kakan ↦ if yaochu then 16 else 8
      | gang ↦ if yaochu then 16 else 8
      | peng ↦ if yaochu then 4 else 2
      | chi ↦ 0
    ]

unfoldable pub meld_fu_loop : List Meld → ℕ → ℕ
meld_fu_loop [] fu = fu
meld_fu_loop (meld ∷ melds) fu = meld_fu_loop melds (fu + meld_fu meld)

unfoldable pub calculate_meld_fu : PlayerImage → ℕ
calculate_meld_fu winner = meld_fu_loop winner.melds 0

-- Unfinished in the source: the answer is false on both branches.
unfoldable pub check_pinfu : HuClaim → PlayerImage → Bool
check_pinfu claim winner = if ltb 0 (length winner.melds) then false else false

unfoldable pub calculate_pair_fu : HuClaim → PlayerImage → ℕ
calculate_pair_fu claim winner = 0

unfoldable pub calculate_wait_fu : HuClaim → PlayerImage → ℕ
calculate_wait_fu claim winner = 0

unfoldable pub calculate_fu : List (Option PlayerImage) → HuClaim → RoundEnd → ℕ
calculate_fu players claim end_kind = elim (player_at players claim.winner_seat) [
  | none ↦ 0
  | some winner ↦
      let base = 20 + (if is_tsumo end_kind then 2 else 0) in
      let fu =
        base
        + calculate_pair_fu claim winner
        + calculate_meld_fu winner
        + calculate_wait_fu claim winner in
      if check_pinfu claim winner then (if is_ron end_kind then 30 else 20) else (fu + 9) / 10 * 10
]

-- Han, fu, points and yakus of a claim; a self-drawn win gives what each other player pays.
unfoldable pub call_hu_points :
    List (Option PlayerImage) → Situation → HuClaim → RoundEnd → ℕ × ℕ × ℕ × List Yaku
call_hu_points players situation claim end_kind =
    let (han, yakuman_mult, yakus) = eval_claim_yakuman players situation claim end_kind in
    let is_dealer = claim.winner_seat == situation.dealer_index in
    let honba = situation.honba in
    let base = 8000 * yakuman_mult in
    let yakuman_points =
      if is_ron end_kind
      then (if is_dealer then base * 6 else base * 4) + 300 * honba
      else (if is_dealer then base * 2 else base) + 100 * honba in
    let fixed_points =
      get_fixed_points han end_kind is_dealer
      + (if is_ron end_kind then 300 * honba else 100 * honba) in
    let fu = calculate_fu players claim end_kind in
    let base_points = calculate_base_points han fu in
    let normal_points =
      (if is_ron end_kind
        then (if is_dealer then base_points * 6 else base_points * 4)
        else (if is_dealer then base_points * 2 else base_points))
      + 100 * honba in
    if ltb 0 yakuman_mult
    then (han, 0, yakuman_points, yakus)
    else if leb 5 han
    then (han, 0, fixed_points, yakus)
    else (han, fu, normal_points, yakus)
