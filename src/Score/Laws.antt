-- ===== src/Score/Laws.antt =====
-- What the points and the fu of score_calculator.go are.
use go_mahjong.Common.{
  ℕ, ◌+◌, ◌*◌, ◌%◌, ◌≤◌, ◌<◌, ◌≡◌, refl, Bool, List, [], ◌∷◌, Option, some, arith, ltb, ◌==◌,
  if◌then◌else◌, length, inl, inr, Bool-cases,
}
use go_mahjong.Player.{PlayerImage, Meld}
use go_mahjong.Yaku.{RoundEnd, Situation, HuClaim, player_at, claim_context}
use go_mahjong.Yaku.Eval.{passed, eval_claim_yakuman_lem}
use go_mahjong.Score.{
  is_ron, is_tsumo, round_up_to100, calculate_base_points, meld_fu, meld_fu_loop, calculate_meld_fu,
  calculate_fu, call_hu_points, check_pinfu, calculate_pair_fu, calculate_wait_fu,
}

-- roundUpTo100 gives the least multiple of 100 that is not below its argument.
pub round_up_to100_bounds :
    (x : ℕ) → (round_up_to100 x % 100 ≡ 0) × (x ≤ round_up_to100 x) × (round_up_to100 x < x + 100)
unfolding round_up_to100
round_up_to100_bounds x = (omega arith, omega arith, omega arith)

meld_fu-le : (m : Meld) → meld_fu m ≤ 32
unfolding meld_fu
meld_fu-le m = ground arith

meld_fu_loop-le :
    (ms : List Meld) (fu : ℕ)
    → (fu ≤ meld_fu_loop ms fu) × (meld_fu_loop ms fu ≤ fu + 32 * length ms)
unfolding meld_fu_loop
meld_fu_loop-le [] fu = (omega arith, omega arith)
meld_fu_loop-le (m ∷ ms) fu =
    let (low, high) = meld_fu_loop-le ms (fu + meld_fu m) in
    (omega (arith, low), omega (arith, high, meld_fu-le m))

pub calculate_fu_bounds :
    (players : List (Option PlayerImage)) (claim : HuClaim) (end_kind : RoundEnd)
    (winner : PlayerImage)
    → player_at players claim.winner_seat ≡ some winner
    → let fu = calculate_fu players claim end_kind in
      (fu % 10 ≡ 0)
      × ((if is_tsumo end_kind then 30 else 20) ≤ fu)
      × (fu ≤ 31 + 32 * length winner.melds)
unfolding calculate_fu check_pinfu calculate_pair_fu calculate_wait_fu calculate_meld_fu
calculate_fu_bounds players claim end_kind winner e =
    let (low, high) = meld_fu_loop-le winner.melds 0 in rw (e, calculate_fu) (ground arith)

round_up_to100_positive : (x : ℕ) → 0 < x → 100 ≤ round_up_to100 x
unfolding round_up_to100
round_up_to100_positive x h = omega arith

-- The han is 0, so the base points are those of the fu, rounded up.
base_points_lem :
    (fu : ℕ) → 20 ≤ fu → (calculate_base_points 0 fu % 100 ≡ 0) × (100 ≤ calculate_base_points 0 fu)
unfolding calculate_base_points
base_points_lem fu h =
    let (whole, low, high) = round_up_to100_bounds (fu * 4) in
    (whole, round_up_to100_positive (fu * 4) (omega arith))

-- The points by the end of the round, the dealer's win, the honba, the yakus listed and the base.
abbrev points_given : RoundEnd → Bool → ℕ → ℕ → ℕ → ℕ
points_given end_kind is_dealer honba listed base =
    if ltb 0 (2 * listed)
    then (if is_ron end_kind
        then (if is_dealer then 8000 * (2 * listed) * 6 else 8000 * (2 * listed) * 4) + 300 * honba
        else (if is_dealer then 8000 * (2 * listed) * 2 else 8000 * (2 * listed)) + 100 * honba)
    else (if is_ron end_kind
        then (if is_dealer then base * 6 else base * 4)
        else (if is_dealer then base * 2 else base))
      + 100 * honba

points_given_positive :
    (end_kind : RoundEnd) (is_dealer : Bool) (honba listed base : ℕ)
    → base % 100 ≡ 0
    → 100 ≤ base
    → (0 < points_given end_kind is_dealer honba listed base)
      × (points_given end_kind is_dealer honba listed base % 100 ≡ 0)
points_given_positive end_kind is_dealer honba listed base whole enough = ground arith

module _ (players : List (Option PlayerImage)) (situation : Situation) (claim : HuClaim)
    (end_kind : RoundEnd) where
  call_hu_points-points_given :
      (call_hu_points players situation claim end_kind).2
      ≡ points_given end_kind
          (claim.winner_seat == situation.dealer_index)
          situation.honba
          (length (passed (claim_context players situation claim (some end_kind))))
          (calculate_base_points 0 (calculate_fu players claim end_kind))
  unfolding call_hu_points
  call_hu_points-points_given =
      let n = length (passed (claim_context players situation claim (some end_kind))) in
      rw (eval_claim_yakuman_lem players situation claim end_kind)
        (elim (Bool-cases (ltb 0 (2 * n))) [ inl e ↦ rw e refl | inr e ↦ rw e refl ])

  -- Every win by a seated player gives a positive multiple of 100 points.
  pub call_hu_points_positive :
      (winner : PlayerImage)
      → player_at players claim.winner_seat ≡ some winner
      → let (han, fu, points, yakus) = call_hu_points players situation claim end_kind in
        (0 < points) × (points % 100 ≡ 0)
  call_hu_points_positive winner e =
      let (tens, low, high) = calculate_fu_bounds players claim end_kind winner e in
      let (whole, enough) =
        base_points_lem (calculate_fu players claim end_kind) (ground (arith, low)) in
      rw call_hu_points-points_given (points_given_positive end_kind _ _ _ _ whole enough)
