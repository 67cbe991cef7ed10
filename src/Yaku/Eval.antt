-- ===== src/Yaku/Eval.antt =====
-- What the registry of yaku.go can give.
use mathlib.Core.List.{append-nil}
use go_mahjong.Common.{
  ℕ, ◌*◌, ◌≡◌, refl, ap, ◌∙◌, Bool, true, false, List, [], ◌∷◌, ◌++◌, Option, some, arith, length,
  length-append, map, Bool-cases, inl, inr,
}
use go_mahjong.Player.{PlayerImage}
use go_mahjong.Yaku.{
  Yaku, suuankou_tanki, daisushi, kokushi13, junsei_chuuren, YakuContext, YakuChecker, Situation,
  HuClaim, RoundEnd, double_yakuman, no_yaku, unimplemented, registry, eval_loop, claim_context,
  eval_claim_yakuman, check_suuankou_tanki, check_daisushi, check_kokushi13, check_junsei_chuuren,
}

-- A yaku in the list if its test passes.
abbrev pub if_passed : Bool → Yaku → List Yaku
if_passed true y = y ∷ []
if_passed false y = []

-- The double yakuman whose tests pass, in the order of the registry.
abbrev pub passed : YakuContext → List Yaku
passed ctx =
    ((if_passed (check_suuankou_tanki ctx) suuankou_tanki
        ++ if_passed (check_daisushi ctx) daisushi)
      ++ if_passed (check_kokushi13 ctx) kokushi13)
    ++ if_passed (check_junsei_chuuren ctx) junsei_chuuren

-- A step of the loop keeps two yakuman for each yaku listed.
eval_loop-double_yakuman :
    (y : Yaku) (test : YakuContext → Bool) (cs : List YakuChecker) (ctx : YakuContext)
    (found : List Yaku)
    → eval_loop (double_yakuman y test ∷ cs) ctx 0 (2 * length found) found
      ≡ eval_loop cs ctx 0
          (2 * length (found ++ if_passed (test ctx) y))
          (found ++ if_passed (test ctx) y)
unfolding eval_loop
eval_loop-double_yakuman y test cs ctx found = elim (Bool-cases (test ctx)) [
  | inl e ↦
      rw (e, length-append found (y ∷ []))
        (ap (λ mult. eval_loop cs ctx 0 mult (found ++ y ∷ [])) (omega arith))
  | inr e ↦ rw (e, append-nil found) refl
]

eval_loop-no_yaku :
    (ys : List Yaku) (ctx : YakuContext) (mult : ℕ) (found : List Yaku)
    → eval_loop (map no_yaku ys) ctx 0 mult found ≡ (0, mult, found)
unfolding eval_loop
eval_loop-no_yaku [] ctx mult found = refl
eval_loop-no_yaku (y ∷ ys) ctx mult found = eval_loop-no_yaku ys ctx mult found

-- Whatever the claim, evalClaimYakuman lists exactly the double yakuman whose tests pass, gives
-- two yakuman for each, and no han: no other yaku ever scores.
pub eval_claim_yakuman_lem :
    (players : List (Option PlayerImage)) (situation : Situation) (claim : HuClaim)
    (end_kind : RoundEnd)
    → let yakus = passed (claim_context players situation claim (some end_kind)) in
      eval_claim_yakuman players situation claim end_kind ≡ (0, 2 * length yakus, yakus)
unfolding eval_claim_yakuman registry
eval_claim_yakuman_lem players situation claim end_kind =
    let ctx = claim_context players situation claim (some end_kind) in
    eval_loop-double_yakuman suuankou_tanki check_suuankou_tanki _ ctx []
    ∙ eval_loop-double_yakuman daisushi check_daisushi _ ctx _
    ∙ eval_loop-double_yakuman kokushi13 check_kokushi13 _ ctx _
    ∙ eval_loop-double_yakuman junsei_chuuren check_junsei_chuuren _ ctx _
    ∙ eval_loop-no_yaku unimplemented ctx _ _
