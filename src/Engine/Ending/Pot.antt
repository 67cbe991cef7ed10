-- ===== src/Engine/Ending/Pot.antt =====
-- The pot of a game, the points of the players and the riichi sticks, under the end of a round.
use go_mahjong.Common.{
  ℕ, ◌*◌, ◌≡◌, inl, inr, refl, sym, ap, ◌∙◌, not, List, [], Option, ltb, leb, length, Bool-cases,
}
use go_mahjong.Common.Int.{ℤ, pos, negsuc, ◌+ℤ◌, ltb_ℤ, +ℤ_assoc, +ℤ_right_swap}
use go_mahjong.Engine.{RiichiMahjong4p, start_round, notify_event, terminate, clear_last_discard}
use go_mahjong.Engine.Ending.{
  apply_delta, any_negative, max_loop, take_sticks, next_round, finalize_round,
}
use go_mahjong.Engine.Ending.Points.{
  sum_ℤ, total, Seated, Sums, apply_delta-total, take_sticks-Sums,
}

-- The points of the players and of the riichi sticks on the table.
unfoldable pub pot : RiichiMahjong4p → ℤ
pot eg = total eg.players +ℤ pos (eg.situation.riichi_sticks * 1000)

-- The same players with the same sticks on the table.
pub record Same (eg eg' : RiichiMahjong4p) : Type 0 where
  pub players : eg'.players ≡ eg.players
  pub sticks : eg'.situation.riichi_sticks ≡ eg.situation.riichi_sticks

pub Same-pot : (eg eg' : RiichiMahjong4p) → Same eg eg' → pot eg' ≡ pot eg
unfolding pot
Same-pot eg eg' s = rw (s.players, s.sticks) refl

notify_event-Same : (eg : RiichiMahjong4p) → Same eg (notify_event start_round eg)
unfolding notify_event
notify_event-Same eg = elim (Bool-cases eg.closed) [
  | inl e ↦ rw (e, notify_event) (record { players = refl; sticks = refl })
  | inr e ↦ elim (Bool-cases (leb 256 (length eg.game_events))) [
    | inl f ↦ rw (e, f, notify_event) (record { players = refl; sticks = refl })
    | inr f ↦ rw (e, f, notify_event) (record { players = refl; sticks = refl })
  ]
]

again-Same :
    (eg : RiichiMahjong4p)
    → Same eg (notify_event start_round (clear_last_discard (record eg { reactions = [] })))
unfolding clear_last_discard
again-Same eg =
    let s = notify_event-Same (clear_last_discard (record eg { reactions = [] })) in
    record { players = s.players; sticks = s.sticks }

next_round-Same : (eg : RiichiMahjong4p) → Same eg (next_round eg)
unfolding next_round terminate
next_round-Same eg = elim (Bool-cases (any_negative eg.players)) [
  | inl e ↦ rw (e, next_round) (record { players = refl; sticks = refl })
  | inr e ↦ elim (Bool-cases (ltb 4 eg.situation.round_number)) [
    | inl late ↦ elim (Bool-cases (not (ltb_ℤ (max_loop eg.players (negsuc 0)) (pos 30000)))) [
      | inl won ↦ rw (e, late, won, next_round) (record { players = refl; sticks = refl })
      | inr low ↦
          let again =
            again-Same (record eg { situation = record eg.situation { round_number = 1 } }) in
          rw (e, late, low, next_round) (record { players = again.players; sticks = again.sticks })
    ]
    | inr early ↦ rw (e, early, next_round) (again-Same eg)
  ]
]

-- The pot grows by the sum of the differences.
pub finalize_round-pot :
    (delta : List ℤ) (stick_winner : Option ℕ) (eg : RiichiMahjong4p) {w : ℤ}
    → Seated eg.players
    → length eg.players ≡ 4
    → Sums w delta
    → pot (finalize_round delta stick_winner eg) ≡ pot eg +ℤ w
unfolding finalize_round pot
finalize_round-pot delta stick_winner eg {w} seated four sums =
    let taken = take_sticks stick_winner delta eg.situation in
    let (size, worth) = take_sticks-Sums stick_winner delta eg.situation sums in
    let paid = record eg { situation = taken.1; players = apply_delta eg.players taken.0 } in
    let sticks = pos (eg.situation.riichi_sticks * 1000) in
    Same-pot paid (next_round paid) (next_round-Same paid)
    ∙ ap (λ n. n +ℤ pos (taken.1.riichi_sticks * 1000))
        (apply_delta-total eg.players taken.0 seated (four ∙ sym size))
    ∙ +ℤ_assoc (total eg.players) (sum_ℤ taken.0) (pos (taken.1.riichi_sticks * 1000))
    ∙ ap (λ n. total eg.players +ℤ n) worth
    ∙ sym (+ℤ_assoc (total eg.players) w sticks)
    ∙ +ℤ_right_swap (total eg.players) w sticks
