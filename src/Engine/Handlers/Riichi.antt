-- ===== src/Engine/Handlers/Riichi.antt =====
-- A riichi puts 1000 points of the player on the table.
use Prim.Native.String.{String}
use go_mahjong.Common.{
  ℕ, zero, suc, ◌+◌, ◌*◌, ◌≡◌, refl, sym, ap, ◌∙◌, List, [], ◌∷◌, Option, none, some, arith,
  Option-cases, inl, inr, true,
}
use go_mahjong.Common.Int.{ℤ, pos, negsuc, ◌+ℤ◌, +ℤ_assoc, +ℤ_right_swap, eq_of_parts, +ℤ_parts}
use go_mahjong.Player.{PlayerImage, add_points}
use go_mahjong.Yaku.{player_at}
use go_mahjong.Engine.{RiichiMahjong4p, update_player}
use go_mahjong.Engine.Answers.{get_seat_index}
use go_mahjong.Engine.Handlers.{handle_riichi_event}
use go_mahjong.Engine.Ending.Points.{total, points_of}
use go_mahjong.Engine.Ending.Pot.{pot}

abbrev pays : PlayerImage → PlayerImage
pays r = add_points (negsuc 999) (record r { is_riichi = true; is_waiting = true })

pays-points : (p : PlayerImage) → points_of (some (pays p)) ≡ p.points +ℤ negsuc 999
unfolding points_of add_points
pays-points p = refl

update_player-total :
    (seat : ℕ) (ps : List (Option PlayerImage)) (p : PlayerImage)
    → player_at ps seat ≡ some p
    → total (update_player seat pays ps) ≡ total ps +ℤ negsuc 999
unfolding total update_player points_of
update_player-total seat [] p e = absurd (cc)
update_player-total zero (none ∷ ps) p e = absurd (cc)
update_player-total zero (some q ∷ ps) p e =
    ap (λ n. n +ℤ total ps) (pays-points q) ∙ +ℤ_right_swap q.points (negsuc 999) (total ps)
update_player-total (suc seat) (q ∷ ps) p e =
    ap (λ n. points_of q +ℤ n) (update_player-total seat ps p e)
    ∙ sym (+ℤ_assoc (points_of q) (total ps) (negsuc 999))

stick_lem : (a : ℤ) (n : ℕ) → (a +ℤ negsuc 999) +ℤ pos ((n + 1) * 1000) ≡ a +ℤ pos (n * 1000)
stick_lem a n = eq_of_parts ((a +ℤ negsuc 999) +ℤ pos ((n + 1) * 1000)) (a +ℤ pos (n * 1000)) (
    omega (
      arith,
      +ℤ_parts a (negsuc 999),
      +ℤ_parts (a +ℤ negsuc 999) (pos ((n + 1) * 1000)),
      +ℤ_parts a (pos (n * 1000)),
    ))

-- Whoever declares riichi, and whenever, the sum of all points and of the riichi sticks stays.
pub handle_riichi_event-pot :
    (user : String) (eg : RiichiMahjong4p) → pot (handle_riichi_event user eg) ≡ pot eg
unfolding handle_riichi_event pot
handle_riichi_event-pot user eg = elim (Option-cases (get_seat_index user eg.user_map)) [
  | inl e ↦ rw (e, handle_riichi_event) refl
  | inr (seat, e) ↦ elim (Option-cases (player_at eg.players seat)) [
    | inl f ↦ rw (e, f, handle_riichi_event) refl
    | inr (p, f) ↦
        rw (e, f, handle_riichi_event)
          (ap (λ n. n +ℤ pos ((eg.situation.riichi_sticks + 1) * 1000))
              (update_player-total seat eg.players p f)
            ∙ stick_lem (total eg.players) eg.situation.riichi_sticks)
  ]
]
