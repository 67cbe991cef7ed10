-- ===== src/Engine/Ending.antt =====
-- game/runtime/engines/mahjong/riichi_mahjong_4p_engine.go: how a round ends and who pays whom.
-- An array of four differences is a list; the seats of the claims are seats at the table.
pub mod Points
pub mod Noten
pub mod Pot
pub mod Conserved
pub mod Sticks
use go_mahjong.Common.{
  ℕ, zero, suc, ◌+◌, ◌-◌, ◌*◌, ◌/◌, ◌%◌, Bool, true, false, not, ◌&&◌, ◌||◌, List, [], ◌∷◌, ◌++◌,
  Option, none, some, ltb, leb, ◌==◌, if◌then◌else◌, length, get_or, set, map,
}
use go_mahjong.Common.Int.{ℤ, pos, negsuc, ◌+ℤ◌, ◌-ℤ◌, ltb_ℤ, eqb_ℤ}
use go_mahjong.Deck.{DeckManager, reveal_ura_dora_indicator, get_dora_indicators}
use go_mahjong.Player.{PlayerImage, add_points}
use go_mahjong.Turn.{TurnManager, stop_all_tickers}
use go_mahjong.Yaku.{
  RoundEnd, draw_exhaustive, draw_3ron, draw_4kan, tsumo, ron, Situation, HuClaim, player_at,
}
use go_mahjong.Score.{call_hu_points}
use go_mahjong.Engine.{
  RiichiMahjong4p, start_round, notify_event, terminate, happen_damage_error, clear_last_discard,
}

abbrev pub no_delta : List ℤ
no_delta = pos 0 ∷ pos 0 ∷ pos 0 ∷ pos 0 ∷ []

abbrev pub gain : ℕ → ℕ → List ℤ → List ℤ
gain seat points delta = set delta seat (get_or delta seat (pos 0) +ℤ pos points)

abbrev pub lose : ℕ → ℕ → List ℤ → List ℤ
lose seat points delta = set delta seat (get_or delta seat (pos 0) -ℤ pos points)

-- The dealer stays, or the next seat deals the next round.
unfoldable pub next_situation : Bool → Situation → Situation
next_situation stays s = if stays then record s { honba = s.honba + 1 } else record s {
  honba = 0;
  dealer_index = (s.dealer_index + 1) % 4;
  round_number = s.round_number + 1;
}

unfoldable pub is_tenpai : Option PlayerImage → Bool
is_tenpai none = false
is_tenpai (some p) = p.tenpai_valid && ltb 0 (length p.tenpai_waits)

-- The seats that wait, the seats that do not, and whether the dealer waits.
unfoldable pub tenpai_loop : ℕ → ℕ → List (Option PlayerImage) → List ℕ × List ℕ × Bool
tenpai_loop dealer i [] = ([], [], false)
tenpai_loop dealer i (p ∷ ps) =
    let (tenpai_seats, noten_seats, dealer_tenpai) = tenpai_loop dealer (suc i) ps in
    if is_tenpai p
    then (i ∷ tenpai_seats, noten_seats, i == dealer || dealer_tenpai)
    else (tenpai_seats, i ∷ noten_seats, dealer_tenpai)

unfoldable pub gain_all : ℕ → List ℕ → List ℤ → List ℤ
gain_all points [] delta = delta
gain_all points (s ∷ ss) delta = gain_all points ss (gain s points delta)

unfoldable pub lose_all : ℕ → List ℕ → List ℤ → List ℤ
lose_all points [] delta = delta
lose_all points (s ∷ ss) delta = lose_all points ss (lose s points delta)

unfoldable pub noten_delta : List ℕ → List ℕ → List ℤ
noten_delta tenpai_seats noten_seats =
    if ltb 0 (length tenpai_seats) && ltb (length tenpai_seats) 4
    then lose_all (3000 / length noten_seats) noten_seats
        (gain_all (3000 / length tenpai_seats) tenpai_seats no_delta)
    else no_delta

-- `finalizeRound`: the winner of the sticks, and the points of each player.
unfoldable pub apply_delta : List (Option PlayerImage) → List ℤ → List (Option PlayerImage)
apply_delta [] ds = []
apply_delta (p ∷ ps) [] = p ∷ ps
apply_delta (none ∷ ps) (d ∷ ds) = none ∷ apply_delta ps ds
apply_delta (some p ∷ ps) (d ∷ ds) =
    some (if eqb_ℤ d (pos 0) then p else add_points d p) ∷ apply_delta ps ds

unfoldable pub any_negative : List (Option PlayerImage) → Bool
any_negative [] = false
any_negative (none ∷ ps) = any_negative ps
any_negative (some p ∷ ps) = ltb_ℤ p.points (pos 0) || any_negative ps

unfoldable pub max_loop : List (Option PlayerImage) → ℤ → ℤ
max_loop [] best = best
max_loop (none ∷ ps) best = max_loop ps best
max_loop (some p ∷ ps) best = max_loop ps (if ltb_ℤ best p.points then p.points else best)

unfoldable pub take_sticks : Option ℕ → List ℤ → Situation → List ℤ × Situation
take_sticks none delta s = (delta, s)
take_sticks (some seat) delta s =
    if ltb seat 4 && ltb 0 s.riichi_sticks
    then (gain seat (s.riichi_sticks * 1000) delta, record s { riichi_sticks = 0 })
    else (delta, s)

-- After the payments: the game is over, or the next round is asked for.
unfoldable pub next_round : RiichiMahjong4p → RiichiMahjong4p
next_round eg =
    let again = λ (eg' : RiichiMahjong4p).
      notify_event start_round (clear_last_discard (record eg' { reactions = [] })) in
    if any_negative eg.players
    then terminate eg
    else if ltb 4 eg.situation.round_number
    then (if not (ltb_ℤ (max_loop eg.players (negsuc 0)) (pos 30000))
        then terminate eg
        else again (record eg { situation = record eg.situation { round_number = 1 } }))
    else again eg

unfoldable pub finalize_round : List ℤ → Option ℕ → RiichiMahjong4p → RiichiMahjong4p
finalize_round delta stick_winner eg =
    let (delta', situation') = take_sticks stick_winner delta eg.situation in
    next_round (record eg { situation = situation'; players = apply_delta eg.players delta' })

unfoldable pub lead_normal_draw_ending : RiichiMahjong4p → RiichiMahjong4p
lead_normal_draw_ending eg =
    let (tenpai_seats, noten_seats, dealer_tenpai) =
      tenpai_loop eg.situation.dealer_index 0 eg.players in
    finalize_round (noten_delta tenpai_seats noten_seats) none
      (record eg { situation = next_situation dealer_tenpai eg.situation })

unfoldable pub lead_halfway_draw_ending : RiichiMahjong4p → RiichiMahjong4p
lead_halfway_draw_ending eg =
    finalize_round no_delta none
      (record eg { situation = record eg.situation { honba = eg.situation.honba + 1 } })

unfoldable pub reveal_loop : ℕ → DeckManager → DeckManager
reveal_loop zero dm = dm
reveal_loop (suc n) dm =
    let (dm', shown) = reveal_ura_dora_indicator dm in
    let rest = reveal_loop n dm' in elim shown [ none ↦ dm' | some t ↦ rest ]

unfoldable pub reveal_ura_dora_indicators : RiichiMahjong4p → RiichiMahjong4p
reveal_ura_dora_indicators eg = elim eg.deck_manager [
  | none ↦ eg
  | some dm ↦ record eg { deck_manager = some (reveal_loop (length (get_dora_indicators dm)) dm) }
]

-- A winner in riichi has the indicators below turned over.
unfoldable pub reveal_for : ℕ → RiichiMahjong4p → RiichiMahjong4p
reveal_for seat eg = elim (player_at eg.players seat) [
  | none ↦ eg
  | some p ↦ if p.is_riichi then reveal_ura_dora_indicators eg else eg
]

unfoldable pub select_loop : ℕ → List HuClaim → Option ℕ → ℕ → Option ℕ
select_loop loser [] best best_dist = best
select_loop loser (c ∷ cs) best best_dist =
    let d = (c.winner_seat + 4 - loser) % 4 in
    if d == 0
    then select_loop loser cs best best_dist
    else if ltb d best_dist
    then select_loop loser cs (some c.winner_seat) d
    else select_loop loser cs best best_dist

unfoldable pub select_stick_winner_ron_a : List HuClaim → Option ℕ
select_stick_winner_ron_a [] = none
select_stick_winner_ron_a (c ∷ cs) = select_loop c.loser_seat (c ∷ cs) none 5

-- The winner of a claim gains what its loser loses.
unfoldable pub pay_ron : HuClaim → ℕ → List ℤ → List ℤ
pay_ron c points delta =
    if c.has_loser
    then lose c.loser_seat points (gain c.winner_seat points delta)
    else gain c.winner_seat points delta

unfoldable pub ron_loop :
    List HuClaim → RiichiMahjong4p × List ℤ × Bool → RiichiMahjong4p × List ℤ × Bool
ron_loop [] s = s
ron_loop (c ∷ cs) (eg, delta, dealer_win) =
    let dealer_win' = (c.winner_seat == eg.situation.dealer_index) || dealer_win in
    let (han, fu, points, yakus) = call_hu_points eg.players eg.situation c ron in
    ron_loop cs (
      reveal_for c.winner_seat eg,
      (if points == 0 then delta else pay_ron c points delta),
      dealer_win',
    )

unfoldable pub lead_ron_ending : List HuClaim → RiichiMahjong4p → RiichiMahjong4p
lead_ron_ending claims eg =
    let (eg', delta, dealer_win) = ron_loop claims (eg, no_delta, false) in
    finalize_round delta (select_stick_winner_ron_a claims)
      (record eg' { situation = next_situation dealer_win eg'.situation })

-- Each seat but the winner's pays, the dealer twice as much as the others to a winner who is not it.
unfoldable pub pay_tsumo : ℕ → ℕ → ℕ → List ℕ → List ℤ → List ℤ
pay_tsumo winner dealer points [] delta = delta
pay_tsumo winner dealer points (i ∷ is) delta =
    let pays = if winner == dealer then points else if i == dealer then points * 2 else points in
    pay_tsumo winner dealer points is
      (if i == winner then delta else gain winner pays (lose i pays delta))

unfoldable pub lead_tsumo_ending : HuClaim → RiichiMahjong4p → RiichiMahjong4p
lead_tsumo_ending claim eg =
    let winner = claim.winner_seat in
    let dealer = eg.situation.dealer_index in
    let eg' = reveal_for winner eg in
    let (han, fu, points, yakus) = call_hu_points eg'.players eg'.situation claim tsumo in
    if points == 0
    then eg'
    else finalize_round (pay_tsumo winner dealer points (0 ∷ 1 ∷ 2 ∷ 3 ∷ []) no_delta) (some winner)
        (record eg' { situation = next_situation (winner == dealer) eg'.situation })

unfoldable pub handle_round_over_event : List HuClaim → RoundEnd → RiichiMahjong4p → RiichiMahjong4p
handle_round_over_event claims end_kind eg =
    let eg' = record eg { turn_manager = stop_all_tickers eg.turn_manager } in
    elim end_kind [
      | draw_exhaustive ↦ lead_normal_draw_ending eg'
      | draw_3ron ↦ lead_halfway_draw_ending eg'
      | draw_4kan ↦ lead_halfway_draw_ending eg'
      | tsumo ↦ elim claims [ [] ↦ happen_damage_error eg' | c ∷ cs ↦ lead_tsumo_ending c eg' ]
      | ron ↦ elim claims [ [] ↦ happen_damage_error eg' | c ∷ cs ↦ lead_ron_ending (c ∷ cs) eg' ]
    ]
