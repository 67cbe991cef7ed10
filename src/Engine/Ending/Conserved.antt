-- ===== src/Engine/Ending/Conserved.antt =====
-- Every end of a round passes points between the players and the riichi sticks, and makes none.
use go_mahjong.Common.{
  ℕ, ◌+◌, ◌<◌, ◌≡◌, inl, inr, refl, sym, ap, ◌∙◌, Bool, true, false, List, [], ◌∷◌, Option, none,
  some, arith, ◌==◌, if◌then◌else◌, length, Bool-cases, Option-cases, subst,
}
use go_mahjong.Common.Int.{ℤ, pos, +ℤ_zero}
use go_mahjong.Yaku.{
  RoundEnd, draw_exhaustive, draw_3ron, draw_4kan, tsumo, ron, Situation, HuClaim, player_at,
}
use go_mahjong.Turn.{stop_all_tickers}
use go_mahjong.Score.{call_hu_points}
use go_mahjong.Engine.{RiichiMahjong4p, terminate, happen_damage_error}
use go_mahjong.Engine.Ending.{
  no_delta, finalize_round, next_situation, lead_normal_draw_ending, lead_halfway_draw_ending,
  handle_round_over_event, noten_delta, tenpai_loop, reveal_for, reveal_ura_dora_indicators,
  ron_loop, pay_ron, lead_ron_ending, lead_tsumo_ending, select_stick_winner_ron_a,
}
use go_mahjong.Engine.Ending.Points.{
  Seated, Sums, no_delta-Sums, pay_ron-Sums, pay_tsumo-Sums, AllSeats, no_seats, seat_then,
}
use go_mahjong.Engine.Ending.Noten.{noten_delta-Sums, tenpai_loop-seats}
use go_mahjong.Engine.Ending.Pot.{pot, Same-pot, finalize_round-pot}

-- The claims are of seats at the table, and a claim on a discard has a loser.
pub data SeatedClaims : RoundEnd → List HuClaim → Type 0 where
  no_claims : {e : RoundEnd} → SeatedClaims e []
  claim_then :
      {e : RoundEnd} (c : HuClaim) (cs : List HuClaim)
      → c.winner_seat < 4
      → (e ≡ ron → (c.has_loser ≡ true) × (c.loser_seat < 4))
      → SeatedClaims e cs
      → SeatedClaims e (c ∷ cs)

-- Four seated players.
pub record Table (eg : RiichiMahjong4p) : Type 0 where
  pub seated : Seated eg.players
  pub four : length eg.players ≡ 4

next_situation-sticks :
    (stays : Bool) (s : Situation) → (next_situation stays s).riichi_sticks ≡ s.riichi_sticks
unfolding next_situation
next_situation-sticks true s = refl
next_situation-sticks false s = refl

-- The differences that add up to nothing leave the pot alone.
finalize_pot :
    (eg : RiichiMahjong4p) (s : Situation) (delta : List ℤ) (stick_winner : Option ℕ)
    → Table eg
    → s.riichi_sticks ≡ eg.situation.riichi_sticks
    → Sums (pos 0) delta
    → pot (finalize_round delta stick_winner (record eg { situation = s })) ≡ pot eg
finalize_pot eg s delta stick_winner t e sums =
    let eg' = record eg { situation = s } in
    finalize_round-pot delta stick_winner eg' t.seated t.four sums
    ∙ +ℤ_zero (pot eg')
    ∙ Same-pot eg eg' (record { players = refl; sticks = e })

lead_normal_draw_ending-pot :
    (eg : RiichiMahjong4p) → Table eg → pot (lead_normal_draw_ending eg) ≡ pot eg
unfolding lead_normal_draw_ending
lead_normal_draw_ending-pot eg t =
    let seats = tenpai_loop eg.situation.dealer_index 0 eg.players in
    let (waits, rests, size) =
      tenpai_loop-seats eg.situation.dealer_index 0 eg.players (ground (arith, t.four)) in
    finalize_pot eg (next_situation seats.2 eg.situation) (noten_delta seats.0 seats.1) none t
      (next_situation-sticks seats.2 eg.situation)
      (noten_delta-Sums seats.0 seats.1 waits rests (size ∙ t.four))

lead_halfway_draw_ending-pot :
    (eg : RiichiMahjong4p) → Table eg → pot (lead_halfway_draw_ending eg) ≡ pot eg
unfolding lead_halfway_draw_ending
lead_halfway_draw_ending-pot eg t =
    finalize_pot eg (record eg.situation { honba = eg.situation.honba + 1 }) no_delta none t refl
      no_delta-Sums

-- The same players in the same situation.
pub record Kept (eg eg' : RiichiMahjong4p) : Type 0 where
  pub players : eg'.players ≡ eg.players
  pub situation : eg'.situation ≡ eg.situation

Kept-Table : {eg eg' : RiichiMahjong4p} → Kept eg eg' → Table eg → Table eg'
Kept-Table k t = record {
  seated = subst Seated (sym k.players) t.seated;
  four = ap length k.players ∙ t.four;
}

Kept-pot : (eg eg' : RiichiMahjong4p) → Kept eg eg' → pot eg' ≡ pot eg
Kept-pot eg eg' k =
    Same-pot eg eg' (record { players = k.players; sticks = ap (λ s. s.riichi_sticks) k.situation })

reveal_ura_dora_indicators-Kept : (eg : RiichiMahjong4p) → Kept eg (reveal_ura_dora_indicators eg)
unfolding reveal_ura_dora_indicators
reveal_ura_dora_indicators-Kept eg = elim (Option-cases eg.deck_manager) [
  | inl e ↦ rw (e, reveal_ura_dora_indicators) (record { players = refl; situation = refl })
  | inr (dm, e) ↦ rw (e, reveal_ura_dora_indicators) (record { players = refl; situation = refl })
]

reveal_for-Kept : (seat : ℕ) (eg : RiichiMahjong4p) → Kept eg (reveal_for seat eg)
unfolding reveal_for
reveal_for-Kept seat eg = elim (Option-cases (player_at eg.players seat)) [
  | inl e ↦ rw (e, reveal_for) (record { players = refl; situation = refl })
  | inr (p, e) ↦ elim (Bool-cases p.is_riichi) [
    | inl riichi ↦ rw (e, riichi, reveal_for) (reveal_ura_dora_indicators-Kept eg)
    | inr no_stick ↦ rw (e, no_stick, reveal_for) (record { players = refl; situation = refl })
  ]
]

Kept-trans : {a b c : RiichiMahjong4p} → Kept a b → Kept b c → Kept a c
Kept-trans k l = record { players = l.players ∙ k.players; situation = l.situation ∙ k.situation }

ron_loop-Sums :
    (cs : List HuClaim) (eg : RiichiMahjong4p) (delta : List ℤ) (dealer_win : Bool)
    → SeatedClaims ron cs
    → Sums (pos 0) delta
    → let (eg', delta', dealer_win') = ron_loop cs (eg, delta, dealer_win) in
      Kept eg eg' × Sums (pos 0) delta'
unfolding ron_loop
ron_loop-Sums [] eg delta dealer_win ok s = (record { players = refl; situation = refl }, s)
ron_loop-Sums (c ∷ cs) eg delta dealer_win (claim_then _ _ winner loser ok) s =
    let points = (call_hu_points eg.players eg.situation c ron).2 in
    let paid : Sums (pos 0) (if points == 0 then delta else pay_ron c points delta) =
      elim (Bool-cases (points == 0)) [
        | inl e ↦ rw e s
        | inr e ↦ rw e (pay_ron-Sums c points delta (loser refl).0 winner (loser refl).1 s)
      ] in
    let (kept, sums) = ron_loop-Sums cs (reveal_for c.winner_seat eg) _ _ ok paid in
    (Kept-trans (reveal_for-Kept c.winner_seat eg) kept, sums)

lead_ron_ending-pot :
    (claims : List HuClaim) (eg : RiichiMahjong4p)
    → SeatedClaims ron claims
    → Table eg
    → pot (lead_ron_ending claims eg) ≡ pot eg
unfolding lead_ron_ending
lead_ron_ending-pot claims eg ok t =
    let after = ron_loop claims (eg, no_delta, false) in
    let (kept, sums) = ron_loop-Sums claims eg no_delta false ok no_delta-Sums in
    finalize_pot after.0 (next_situation after.2 after.0.situation) after.1
      (select_stick_winner_ron_a claims) (Kept-Table kept t)
      (next_situation-sticks after.2 after.0.situation) sums
    ∙ Kept-pot eg after.0 kept

four_seats : AllSeats (0 ∷ 1 ∷ 2 ∷ 3 ∷ [])
four_seats = seat_then 0 _ (omega arith) (
    seat_then 1 _ (omega arith)
      (seat_then 2 _ (omega arith) (seat_then 3 _ (omega arith) no_seats)))

lead_tsumo_ending-pot :
    (c : HuClaim) (eg : RiichiMahjong4p)
    → c.winner_seat < 4
    → Table eg
    → pot (lead_tsumo_ending c eg) ≡ pot eg
unfolding lead_tsumo_ending
lead_tsumo_ending-pot c eg h t =
    let eg' = reveal_for c.winner_seat eg in
    let kept = reveal_for-Kept c.winner_seat eg in
    let points = (call_hu_points eg'.players eg'.situation c tsumo).2 in
    let dealer = eg.situation.dealer_index in
    elim (Bool-cases (points == 0)) [
      | inl e ↦ rw (e, lead_tsumo_ending) (Kept-pot eg eg' kept)
      | inr e ↦
          rw (e, lead_tsumo_ending)
            (finalize_pot eg' (next_situation (c.winner_seat == dealer) eg'.situation) _
                (some c.winner_seat) (Kept-Table kept t)
                (next_situation-sticks (c.winner_seat == dealer) eg'.situation)
                (pay_tsumo-Sums c.winner_seat dealer points _ no_delta h four_seats no_delta-Sums)
              ∙ Kept-pot eg eg' kept)
    ]

abbrev stopped : RiichiMahjong4p → RiichiMahjong4p
stopped eg = record eg { turn_manager = stop_all_tickers eg.turn_manager }

stopped-Table : (eg : RiichiMahjong4p) → Table eg → Table (stopped eg)
stopped-Table eg t = record { seated = t.seated; four = t.four }

stopped-pot : (eg : RiichiMahjong4p) → pot (stopped eg) ≡ pot eg
stopped-pot eg = Same-pot eg (stopped eg) (record { players = refl; sticks = refl })

-- With four seated players, every end of a round (exhaustive draw, abortive draw, ron by several
-- winners, self-drawn win) leaves the sum of all points and of the riichi sticks on the table as
-- it was, if the claims are of seats at the table and a claim on a discard has a loser.
pub handle_round_over_event-pot :
    (claims : List HuClaim) (end_kind : RoundEnd) (eg : RiichiMahjong4p)
    → Table eg
    → SeatedClaims end_kind claims
    → pot (handle_round_over_event claims end_kind eg) ≡ pot eg
unfolding handle_round_over_event happen_damage_error terminate
handle_round_over_event-pot claims draw_exhaustive eg t ok =
    lead_normal_draw_ending-pot (stopped eg) (stopped-Table eg t) ∙ stopped-pot eg
handle_round_over_event-pot claims draw_3ron eg t ok =
    lead_halfway_draw_ending-pot (stopped eg) (stopped-Table eg t) ∙ stopped-pot eg
handle_round_over_event-pot claims draw_4kan eg t ok =
    lead_halfway_draw_ending-pot (stopped eg) (stopped-Table eg t) ∙ stopped-pot eg
handle_round_over_event-pot [] tsumo eg t ok =
    Same-pot eg _ (record { players = refl; sticks = refl })
handle_round_over_event-pot (c ∷ cs) tsumo eg t (claim_then _ _ winner loser ok) =
    lead_tsumo_ending-pot c (stopped eg) winner (stopped-Table eg t) ∙ stopped-pot eg
handle_round_over_event-pot [] ron eg t ok =
    Same-pot eg _ (record { players = refl; sticks = refl })
handle_round_over_event-pot (c ∷ cs) ron eg t ok =
    lead_ron_ending-pot (c ∷ cs) (stopped eg) ok (stopped-Table eg t) ∙ stopped-pot eg
