-- ===== src/Engine/Ending/Noten.antt =====
-- The payments of an exhaustive draw: 3000 points pass from the hands that do not wait to those that do.
use go_mahjong.Common.{
  ℕ, zero, suc, ◌+◌, ◌*◌, ◌/◌, ◌≤◌, ◌<◌, ◌≡◌, inl, inr, refl, sym, ap, ◌∙◌, ◌&&◌, List, [], ◌∷◌,
  Option, arith, ltb, length, Bool-cases,
}
use go_mahjong.Common.Int.{
  ℤ, pos, ◌+ℤ◌, ◌-ℤ◌, +ℤ_assoc, +ℤ_zero, add_sub_cancel, pos_add, eq_of_parts, -ℤ_parts,
}
use go_mahjong.Player.{PlayerImage}
use go_mahjong.Engine.Ending.{
  no_delta, gain, lose, gain_all, lose_all, noten_delta, tenpai_loop, is_tenpai,
}
use go_mahjong.Engine.Ending.Points.{
  Sums, no_delta-Sums, gain-Sums, lose-Sums, as_whole, AllSeats, no_seats, seat_then,
}

add_more : (w : ℤ) (m n : ℕ) → (w +ℤ pos m) +ℤ pos n ≡ w +ℤ pos (m + n)
add_more w m n = rw (pos_add m n) (+ℤ_assoc w (pos m) (pos n))

sub_more : (w : ℤ) (m n : ℕ) → (w -ℤ pos m) -ℤ pos n ≡ w -ℤ pos (m + n)
sub_more w m n =
    eq_of_parts ((w -ℤ pos m) -ℤ pos n) (w -ℤ pos (m + n))
      (omega (arith, -ℤ_parts w (pos m), -ℤ_parts (w -ℤ pos m) (pos n), -ℤ_parts w (pos (m + n))))

-ℤ_zero : (w : ℤ) → w -ℤ pos 0 ≡ w
-ℤ_zero w = eq_of_parts (w -ℤ pos 0) w (omega (arith, -ℤ_parts w (pos 0)))

mul_zero : (m : ℕ) → 0 ≡ m * 0
mul_zero m = omega arith

mul_suc : (m n : ℕ) → m + m * n ≡ m * suc n
mul_suc m n = omega arith

gain_all-Sums :
    (points : ℕ) (ss : List ℕ) (delta : List ℤ) {w : ℤ}
    → AllSeats ss
    → Sums w delta
    → Sums (w +ℤ pos (points * length ss)) (gain_all points ss delta)
unfolding gain_all
gain_all-Sums points [] delta {w} a s =
    as_whole delta (sym (+ℤ_zero w) ∙ ap (λ n. w +ℤ pos n) (mul_zero points)) s
gain_all-Sums points (i ∷ is) delta {w} (seat_then _ _ h a) s =
    as_whole _
      (add_more w points (points * length is) ∙ ap (λ n. w +ℤ pos n) (mul_suc points (length is)))
      (gain_all-Sums points is (gain i points delta) a (gain-Sums i points delta h s))

lose_all-Sums :
    (points : ℕ) (ss : List ℕ) (delta : List ℤ) {w : ℤ}
    → AllSeats ss
    → Sums w delta
    → Sums (w -ℤ pos (points * length ss)) (lose_all points ss delta)
unfolding lose_all
lose_all-Sums points [] delta {w} a s =
    as_whole delta (sym (-ℤ_zero w) ∙ ap (λ n. w -ℤ pos n) (mul_zero points)) s
lose_all-Sums points (i ∷ is) delta {w} (seat_then _ _ h a) s =
    as_whole _
      (sub_more w points (points * length is) ∙ ap (λ n. w -ℤ pos n) (mul_suc points (length is)))
      (lose_all-Sums points is (lose i points delta) a (lose-Sums i points delta h s))

-- The two sides of the payment are the same whole number of points.
fair : (a b : ℕ) → a + b ≡ 4 → 0 < a → a < 4 → 3000 / a * a ≡ 3000 / b * b
fair zero b e h k = absurd (omega (arith, h))
fair (suc zero) b e h k = let rest : b ≡ 3 = omega (arith, e) in rw rest refl
fair (suc (suc zero)) b e h k = let rest : b ≡ 2 = omega (arith, e) in rw rest refl
fair (suc (suc (suc zero))) b e h k = let rest : b ≡ 1 = omega (arith, e) in rw rest refl
fair (suc (suc (suc (suc n)))) b e h k = absurd (omega (arith, k))

pub tenpai_loop-seats :
    (dealer i : ℕ) (ps : List (Option PlayerImage))
    → i + length ps ≤ 4
    → let (tenpai_seats, noten_seats, dealer_tenpai) = tenpai_loop dealer i ps in
      AllSeats tenpai_seats
      × AllSeats noten_seats
      × (length tenpai_seats + length noten_seats ≡ length ps)
unfolding tenpai_loop
tenpai_loop-seats dealer i [] h = (no_seats, no_seats, omega arith)
tenpai_loop-seats dealer i (p ∷ ps) h =
    let (waits, rests, size) = tenpai_loop-seats dealer (suc i) ps (omega (arith, h)) in
    elim (Bool-cases (is_tenpai p)) [
      | inl e ↦
          rw (e, tenpai_loop) (seat_then i _ (omega (arith, h)) waits, rests, omega (arith, size))
      | inr e ↦
          rw (e, tenpai_loop) (waits, seat_then i _ (omega (arith, h)) rests, omega (arith, size))
    ]

-- Of four players, the payments of those who do not wait add up to nothing with the gains.
pub noten_delta-Sums :
    (tenpai_seats noten_seats : List ℕ)
    → AllSeats tenpai_seats
    → AllSeats noten_seats
    → length tenpai_seats + length noten_seats ≡ 4
    → Sums (pos 0) (noten_delta tenpai_seats noten_seats)
unfolding noten_delta
noten_delta-Sums tenpai_seats noten_seats a b size =
    let a_side = 3000 / length tenpai_seats * length tenpai_seats in
    let b_side = 3000 / length noten_seats * length noten_seats in
    elim (Bool-cases (ltb 0 (length tenpai_seats) && ltb (length tenpai_seats) 4)) [
      | inl e ↦
          let same : a_side ≡ b_side =
            fair (length tenpai_seats) (length noten_seats) size (ground arith) (ground arith) in
          rw (e, noten_delta)
            (as_whole _
              (ap (λ n. (pos 0 +ℤ pos a_side) -ℤ pos n) (sym same)
                ∙ add_sub_cancel (pos 0) (pos a_side))
              (lose_all-Sums (3000 / length noten_seats) noten_seats _ b
                (gain_all-Sums (3000 / length tenpai_seats) tenpai_seats no_delta a no_delta-Sums)))
      | inr e ↦ rw (e, noten_delta) no_delta-Sums
    ]
