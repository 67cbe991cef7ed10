-- ===== src/Yaku.antt =====
-- game/runtime/engines/mahjong/yaku.go, with `evalClaimYakuman` of riichi_mahjong_4p_engine.go and
-- the records `Situation` and `HuClaim` of material.go.
-- A Go map from types to counts is the list of its entries; `ctx` is never nil.
pub mod Eval
use go_mahjong.Common.{
  ℕ, zero, suc, ◌+◌, ◌-◌, ◌%◌, Bool, true, false, not, ◌&&◌, ◌||◌, List, [], ◌∷◌, ◌++◌, Option,
  none, some, ltb, leb, ◌==◌, if◌then◌else◌, length, get_or, set, replicate, map,
}
use go_mahjong.Common.Int.{ℤ, pos, negsuc, ◌-ℤ◌, eqb_ℤ}
use go_mahjong.Tiles.{
  Tile, TileType, Wind, man1, man9, pin1, pin9, so1, so9, east, south, west, north, white, green,
  red,
}
use go_mahjong.Player.{PlayerImage, Meld}
use go_mahjong.Search.{suit_of}

pub data Yaku : Type 0 where
  riichi tsumo pinfu ippeiko ryanpeiko yakuhai tanyao sanshoku ittsu chanta junchan : Yaku
  honroto chinroto honitsu chinitsu toitoi sananko sankantsu chiitoi kokushi : Yaku
  suuankou suuankou_tanki daisushi kokushi13 chuuren junsei_chuuren kazoe_yakuman : Yaku

-- The strings of the constants `RoundEnd…`.
pub data RoundEnd : Type 0 where
  draw_exhaustive draw_3ron draw_4kan tsumo ron : RoundEnd

pub record Situation : Type 0 where
  pub dealer_index : ℕ
  pub honba : ℕ
  pub round_wind : Wind
  pub round_number : ℕ
  pub riichi_sticks : ℕ

pub record HuClaim : Type 0 where
  pub winner_seat : ℕ
  pub has_loser : Bool
  pub loser_seat : ℕ
  pub win_tile : Tile

pub record YakuContext : Type 0 where
  pub claim : HuClaim
  pub winner : Option PlayerImage
  pub situation : Situation
  pub end_kind : Option RoundEnd  -- none for the empty string

abbrev pub Counts : Type 0
Counts = List (TileType × ℕ)

-- `counts[t]`, 0 for a missing key.
unfoldable pub count_of : TileType → Counts → ℕ
count_of t [] = 0
count_of t ((u, c) ∷ m) = if u == t then c else count_of t m

-- `counts[t]++`
unfoldable pub increment : TileType → Counts → Counts
increment t [] = (t, 1) ∷ []
increment t ((u, c) ∷ m) = if u == t then (u, c + 1) ∷ m else (u, c) ∷ increment t m

-- Every tile of a list counted, and the number of tiles.
unfoldable pub count_tiles : List Tile → Counts × ℕ → Counts × ℕ
count_tiles [] r = r
count_tiles (t ∷ ts) (counts, total) = count_tiles ts (increment t.type counts, total + 1)

unfoldable pub count_melds : List Meld → Counts × ℕ → Counts × ℕ
count_melds [] r = r
count_melds (m ∷ ms) r = count_melds ms (count_tiles m.tiles r)

unfoldable pub build_tile_type_counts_for_claim : YakuContext → Counts × ℕ
build_tile_type_counts_for_claim ctx = elim ctx.winner [
  | none ↦ ([], 0)
  | some winner ↦
      let (counts, total) = count_melds winner.melds (count_tiles winner.tiles ([], 0)) in
      if ctx.claim.has_loser
      then (increment ctx.claim.win_tile.type counts, total + 1)
      else (counts, total)
]

unfoldable pub is_honor_type : TileType → Bool
is_honor_type t = leb east t

unfoldable pub number_index : TileType → ℤ
number_index t =
    if leb man1 t && leb t man9
    then pos (t - man1)
    else if leb pin1 t && leb t pin9
    then pos (t - pin1)
    else if leb so1 t && leb t so9
    then pos (t - so1)
    else negsuc 0

abbrev pub kokushi_tile_types : List TileType
kokushi_tile_types =
    man1 ∷ man9 ∷ pin1 ∷ pin9 ∷ so1 ∷ so9 ∷ east ∷ south ∷ west ∷ north ∷ white ∷ green ∷ red ∷ []

-- The `switch` over the thirteen orphans.
unfoldable pub is_among : List TileType → TileType → Bool
is_among [] t = false
is_among (u ∷ us) t = t == u || is_among us t

unfoldable pub is_kokushi_tile_type : TileType → Bool
is_kokushi_tile_type t = is_among kokushi_tile_types t

-- The first loop of `checkSuuankouTanki`: the triplets and quads, or an early false.
unfoldable pub trips_loop : Counts → ℕ → Option ℕ
trips_loop [] trip = some trip
trips_loop ((t, c) ∷ m) trip =
    if c == 0
    then trips_loop m trip
    else if c == 2
    then trips_loop m trip
    else if c == 3 || c == 4
    then trips_loop m (trip + 1)
    else none

-- The second loop: the last pair and the number of pairs.
unfoldable pub pairs_loop : Counts → ℤ → ℕ → ℤ × ℕ
pairs_loop [] pair n = (pair, n)
pairs_loop ((t, c) ∷ m) pair n =
    if c == 2 then pairs_loop m (pos t) (n + 1) else pairs_loop m pair n

-- The guards that three of the checks share: a closed hand of 14 tiles.
unfoldable pub closed_hand : YakuContext → Option Counts
closed_hand ctx =
    let (counts, total) = build_tile_type_counts_for_claim ctx in
    elim ctx.winner [
      | none ↦ none
      | some winner ↦
          if not (length winner.melds == 0)
          then none
          else if not (total == 14)
          then none
          else some counts
    ]

unfoldable pub check_suuankou_tanki : YakuContext → Bool
check_suuankou_tanki ctx = elim (closed_hand ctx) [
  | none ↦ false
  | some counts ↦ elim (trips_loop counts 0) [
    | none ↦ false
    | some trip ↦
        let (pair, pair_count) = pairs_loop counts (negsuc 0) 0 in
        if not (trip == 4) || not (pair_count == 1)
        then false
        else eqb_ℤ pair (pos ctx.claim.win_tile.type)
  ]
]

unfoldable pub check_daisushi : YakuContext → Bool
check_daisushi ctx =
    let (counts, total) = build_tile_type_counts_for_claim ctx in
    leb 3 (count_of east counts)
    && leb 3 (count_of south counts)
    && leb 3 (count_of west counts)
    && leb 3 (count_of north counts)

-- The first loop of `checkKokushi13`: only orphans, at most two of each.
unfoldable pub only_orphans : Counts → Bool
only_orphans [] = true
only_orphans ((t, c) ∷ m) =
    if c == 0
    then only_orphans m
    else if not (is_kokushi_tile_type t)
    then false
    else if ltb 2 c
    then false
    else only_orphans m

-- The second loop: one of each, and two of the winning type.
unfoldable pub one_of_each : List TileType → TileType → Counts → Bool
one_of_each [] win counts = true
one_of_each (t ∷ ts) win counts =
    if count_of t counts == (if t == win then 2 else 1) then one_of_each ts win counts else false

unfoldable pub check_kokushi13 : YakuContext → Bool
check_kokushi13 ctx = elim (closed_hand ctx) [
  | none ↦ false
  | some counts ↦
      if only_orphans counts
      then one_of_each kokushi_tile_types ctx.claim.win_tile.type counts
      else false
]

-- The loop of `checkJunseiChuuren`: the suit (-1 at first) and the nine counts of it.
unfoldable pub suit_loop : Counts → ℤ → List ℕ → Option (ℤ × List ℕ)
suit_loop [] suit c9 = some (suit, c9)
suit_loop ((t, c) ∷ m) suit c9 =
    if c == 0
    then suit_loop m suit c9
    else if is_honor_type t
    then none
    else if eqb_ℤ (suit_of t) (negsuc 0)
    then none
    else if not (eqb_ℤ suit (negsuc 0)) && not (eqb_ℤ suit (suit_of t))
    then none
    else elim (number_index t) [ pos n ↦ suit_loop m (suit_of t) (set c9 n c) | negsuc _ ↦ none ]

abbrev pub chuuren_base : List ℕ
chuuren_base = 3 ∷ 1 ∷ 1 ∷ 1 ∷ 1 ∷ 1 ∷ 1 ∷ 1 ∷ 3 ∷ []

-- `work[i] != base[i]` for some i; `work` may have fallen below 0.
unfoldable pub all_equal : List ℤ → List ℕ → Bool
all_equal [] base = true
all_equal (x ∷ xs) [] = true
all_equal (x ∷ xs) (b ∷ base) = if eqb_ℤ x (pos b) then all_equal xs base else false

unfoldable pub check_junsei_chuuren : YakuContext → Bool
check_junsei_chuuren ctx =
    let win = ctx.claim.win_tile.type in
    elim (closed_hand ctx) [
      | none ↦ false
      | some counts ↦
          if is_honor_type win then false else elim (suit_loop counts (negsuc 0) (replicate 9 0)) [
            | none ↦ false
            | some (suit, c9) ↦
                if eqb_ℤ suit (negsuc 0)
                then false
                else if not (eqb_ℤ (suit_of win) suit)
                then false
                else elim (number_index win) [
                  | negsuc _ ↦ false
                  | pos n ↦
                      let work = map (λ c. pos c) c9 in
                      all_equal (set work n (get_or work n (pos 0) -ℤ pos 1)) chuuren_base
                ]
          ]
    ]

-- A checker gives its han and its yakuman multiple.
pub record YakuChecker : Type 0 where
  pub id : Yaku
  pub check : YakuContext → ℕ × ℕ

abbrev pub double_yakuman : Yaku → (YakuContext → Bool) → YakuChecker
double_yakuman id test = record { id = id; check = λ ctx. if test ctx then (0, 2) else (0, 0) }

-- A yaku that is not implemented: its check gives nothing.
abbrev pub no_yaku : Yaku → YakuChecker
no_yaku id = record { id = id; check = λ ctx. (0, 0) }

abbrev pub unimplemented : List Yaku
unimplemented =
    riichi ∷ Yaku.tsumo ∷ pinfu ∷ ippeiko ∷ ryanpeiko ∷ yakuhai ∷ tanyao ∷ sanshoku ∷ ittsu ∷ chanta
    ∷ junchan ∷ honroto ∷ chinroto ∷ honitsu ∷ chinitsu ∷ toitoi ∷ sananko ∷ sankantsu ∷ chiitoi
    ∷ kokushi ∷ []

unfoldable pub registry : List YakuChecker
registry =
    double_yakuman suuankou_tanki check_suuankou_tanki
    ∷ double_yakuman daisushi check_daisushi
    ∷ double_yakuman kokushi13 check_kokushi13
    ∷ double_yakuman junsei_chuuren check_junsei_chuuren
    ∷ map no_yaku unimplemented

-- The loop over the registry: the han, the yakuman multiple and the yakus.
unfoldable pub eval_loop : List YakuChecker → YakuContext → ℕ → ℕ → List Yaku → ℕ × ℕ × List Yaku
eval_loop [] ctx han_sum yakuman_mult_sum results = (han_sum, yakuman_mult_sum, results)
eval_loop (checker ∷ rest) ctx han_sum yakuman_mult_sum results =
    let (han, ym) = checker.check ctx in
    let hit = ltb 0 han || ltb 0 ym in
    eval_loop rest ctx (if hit then han_sum + han else han_sum)
      (if hit then yakuman_mult_sum + ym else yakuman_mult_sum)
      (if hit then results ++ checker.id ∷ [] else results)

-- The winner of a claim: nil for a seat out of range.
abbrev pub player_at : List (Option PlayerImage) → ℕ → Option PlayerImage
player_at players seat = get_or players seat none

abbrev pub claim_context :
    List (Option PlayerImage) → Situation → HuClaim → Option RoundEnd → YakuContext
claim_context players situation claim end_kind = record {
  claim = claim;
  winner = if ltb claim.winner_seat 4 then player_at players claim.winner_seat else none;
  situation = situation;
  end_kind = end_kind;
}

unfoldable pub eval_claim_yakuman :
    List (Option PlayerImage) → Situation → HuClaim → RoundEnd → ℕ × ℕ × List Yaku
eval_claim_yakuman players situation claim end_kind =
    eval_loop registry (claim_context players situation claim (some end_kind)) 0 0 []

-- `GetFanfuAndYakus`, whose loop keeps the yakus only.
unfoldable pub get_fanfu_and_yakus :
    List (Option PlayerImage) → Situation → HuClaim → ℕ × ℕ × List Yaku
get_fanfu_and_yakus players situation claim =
    let (han, ym, yakus) = eval_loop registry (claim_context players situation claim none) 0 0 [] in
    (0, 0, yakus)
