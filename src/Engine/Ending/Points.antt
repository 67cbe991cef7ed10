-- ===== src/Engine/Ending/Points.antt =====
-- The points that the end of a round moves: what the players and the riichi sticks hold is kept.
use go_mahjong.Common.{
  ℕ, zero, suc, ◌*◌, ◌<◌, ◌≡◌, inl, inr, refl, sym, ap, ◌∙◌, true, ◌&&◌, List, [], ◌∷◌, Option,
  none, some, arith, ltb, ◌==◌, if◌then◌else◌, length, get_or, set, length-set, Bool-cases,
}
use go_mahjong.Common.Int.{
  ℤ, pos, ◌+ℤ◌, ◌-ℤ◌, eqb_ℤ, +ℤ_assoc, +ℤ_zero, +ℤ_right_swap, -ℤ_swap, +ℤ_-ℤ_assoc, sub_add_cancel,
  add_sub_cancel, eqb_ℤ_iff, +ℤ_exchange,
}
use go_mahjong.Player.{PlayerImage, add_points}
use go_mahjong.Engine.Ending.{no_delta, gain, lose, apply_delta, take_sticks, pay_ron, pay_tsumo}
use go_mahjong.Yaku.{Situation, HuClaim}

unfoldable pub sum_ℤ : List ℤ → ℤ
sum_ℤ [] = pos 0
sum_ℤ (x ∷ xs) = x +ℤ sum_ℤ xs

unfoldable pub points_of : Option PlayerImage → ℤ
points_of none = pos 0
points_of (some p) = p.points

-- The points of all players.
unfoldable pub total : List (Option PlayerImage) → ℤ
total [] = pos 0
total (p ∷ ps) = points_of p +ℤ total ps

-- No seat is empty.
pub data Seated : List (Option PlayerImage) → Type 0 where
  no_one : Seated []
  sits : (p : PlayerImage) (ps : List (Option PlayerImage)) → Seated ps → Seated (some p ∷ ps)

sum_ℤ-set_add :
    (ds : List ℤ) (i : ℕ) (x : ℤ)
    → i < length ds
    → sum_ℤ (set ds i (get_or ds i (pos 0) +ℤ x)) ≡ sum_ℤ ds +ℤ x
unfolding sum_ℤ
sum_ℤ-set_add [] i x h = absurd (omega arith)
sum_ℤ-set_add (d ∷ ds) zero x h = +ℤ_right_swap d x (sum_ℤ ds)
sum_ℤ-set_add (d ∷ ds) (suc i) x h =
    ap (λ n. d +ℤ n) (sum_ℤ-set_add ds i x (omega arith)) ∙ sym (+ℤ_assoc d (sum_ℤ ds) x)

sum_ℤ-set_sub :
    (ds : List ℤ) (i : ℕ) (x : ℤ)
    → i < length ds
    → sum_ℤ (set ds i (get_or ds i (pos 0) -ℤ x)) ≡ sum_ℤ ds -ℤ x
unfolding sum_ℤ
sum_ℤ-set_sub [] i x h = absurd (omega arith)
sum_ℤ-set_sub (d ∷ ds) zero x h = -ℤ_swap d x (sum_ℤ ds)
sum_ℤ-set_sub (d ∷ ds) (suc i) x h =
    ap (λ n. d +ℤ n) (sum_ℤ-set_sub ds i x (omega arith)) ∙ +ℤ_-ℤ_assoc d (sum_ℤ ds) x

-- The differences of the four seats, with their sum.
pub record Sums (whole : ℤ) (delta : List ℤ) : Type 0 where
  pub four : length delta ≡ 4
  pub adds_up : sum_ℤ delta ≡ whole

pub no_delta-Sums : Sums (pos 0) no_delta
unfolding sum_ℤ ◌+ℤ◌
no_delta-Sums = record { four = refl; adds_up = refl }

pub gain-Sums :
    (seat points : ℕ) {w : ℤ} (delta : List ℤ)
    → seat < 4
    → Sums w delta
    → Sums (w +ℤ pos points) (gain seat points delta)
gain-Sums seat points delta h s = record {
  four = length-set delta seat _ ∙ s.four;
  adds_up =
      sum_ℤ-set_add delta seat (pos points) (ground (arith, h, s.four))
      ∙ ap (λ n. n +ℤ pos points) s.adds_up;
}

pub lose-Sums :
    (seat points : ℕ) {w : ℤ} (delta : List ℤ)
    → seat < 4
    → Sums w delta
    → Sums (w -ℤ pos points) (lose seat points delta)
lose-Sums seat points delta h s = record {
  four = length-set delta seat _ ∙ s.four;
  adds_up =
      sum_ℤ-set_sub delta seat (pos points) (ground (arith, h, s.four))
      ∙ ap (λ n. n -ℤ pos points) s.adds_up;
}

pub as_whole : {v w : ℤ} (delta : List ℤ) → v ≡ w → Sums v delta → Sums w delta
as_whole delta e s = record { four = s.four; adds_up = s.adds_up ∙ e }

pub pay_ron-Sums :
    (c : HuClaim) (points : ℕ) (delta : List ℤ) {w : ℤ}
    → c.has_loser ≡ true
    → c.winner_seat < 4
    → c.loser_seat < 4
    → Sums w delta
    → Sums w (pay_ron c points delta)
unfolding pay_ron
pay_ron-Sums c points delta {w} e hw hl s =
    rw (e, pay_ron)
      (as_whole _ (add_sub_cancel w (pos points)) (
        lose-Sums c.loser_seat points (gain c.winner_seat points delta) hl
          (gain-Sums c.winner_seat points delta hw s)))

-- Every seat of the list is one of the four.
pub data AllSeats : List ℕ → Type 0 where
  no_seats : AllSeats []
  seat_then : (i : ℕ) (is : List ℕ) → i < 4 → AllSeats is → AllSeats (i ∷ is)

pub pay_tsumo-Sums :
    (winner dealer points : ℕ) (is : List ℕ) (delta : List ℤ) {w : ℤ}
    → winner < 4
    → AllSeats is
    → Sums w delta
    → Sums w (pay_tsumo winner dealer points is delta)
unfolding pay_tsumo
pay_tsumo-Sums winner dealer points [] delta hw a s = s
pay_tsumo-Sums winner dealer points (i ∷ is) delta {w} hw (seat_then _ _ h a) s =
    let pays = if winner == dealer then points else if i == dealer then points * 2 else points in
    pay_tsumo-Sums winner dealer points is _ hw a (elim (Bool-cases (i == winner)) [
      | inl e ↦ rw e s
      | inr e ↦ rw e (
          as_whole _ (sub_add_cancel w (pos pays))
            (gain-Sums winner pays (lose i pays delta) hw (lose-Sums i pays delta h s)))
    ])

-- What `finalizeRound` adds to a player's points.
points_moved :
    (d : ℤ) (p : PlayerImage)
    → points_of (some (if eqb_ℤ d (pos 0) then p else add_points d p)) ≡ p.points +ℤ d
unfolding points_of add_points
points_moved d p = elim (Bool-cases (eqb_ℤ d (pos 0))) [
  | inl e ↦ rw e (sym (ap (λ x. p.points +ℤ x) (eqb_ℤ_iff d (pos 0) e) ∙ +ℤ_zero p.points))
  | inr e ↦ rw e refl
]

pub apply_delta-total :
    (ps : List (Option PlayerImage)) (ds : List ℤ)
    → Seated ps
    → length ps ≡ length ds
    → total (apply_delta ps ds) ≡ total ps +ℤ sum_ℤ ds
unfolding total apply_delta sum_ℤ points_of
apply_delta-total [] [] none_here e = sym (+ℤ_zero (pos 0))
apply_delta-total [] (d ∷ ds) none_here e = absurd (omega (arith, e))
apply_delta-total (p ∷ ps) [] seated e = absurd (omega (arith, e))
apply_delta-total (none ∷ ps) (d ∷ ds) seated e = elim seated [ ]
apply_delta-total (some p ∷ ps) (d ∷ ds) (sits _ _ seated) e =
    rw (points_moved d p, apply_delta-total ps ds seated (omega (arith, e)))
      (+ℤ_exchange p.points d (total ps) (sum_ℤ ds))

-- The sticks on the table are worth what they give to who takes them.
pub take_sticks-Sums :
    (stick_winner : Option ℕ) (delta : List ℤ) (s : Situation) {w : ℤ}
    → Sums w delta
    → let (delta', s') = take_sticks stick_winner delta s in
      (length delta' ≡ 4)
      × (sum_ℤ delta' +ℤ pos (s'.riichi_sticks * 1000) ≡ w +ℤ pos (s.riichi_sticks * 1000))
unfolding take_sticks
take_sticks-Sums none delta s sums =
    (sums.four, ap (λ n. n +ℤ pos (s.riichi_sticks * 1000)) sums.adds_up)
take_sticks-Sums (some seat) delta s {w} sums =
    elim (Bool-cases (ltb seat 4 && ltb 0 s.riichi_sticks)) [
      | inl e ↦
          let taken = gain-Sums seat (s.riichi_sticks * 1000) delta (ground arith) sums in
          rw (e, take_sticks) (taken.four, +ℤ_zero _ ∙ taken.adds_up)
      | inr e ↦
          rw (e, take_sticks) (sums.four, ap (λ n. n +ℤ pos (s.riichi_sticks * 1000)) sums.adds_up)
    ]
