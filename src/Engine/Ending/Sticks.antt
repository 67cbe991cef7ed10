-- ===== src/Engine/Ending/Sticks.antt =====
-- Who takes the riichi sticks when several players win on one discard.
use mathlib.Core.List.{Memᴰ}
use go_mahjong.Common.{
  ℕ, ◌+◌, ◌-◌, ◌%◌, ◌≤◌, ◌<◌, ◌≡◌, ◌⊎◌, refl, List, [], ◌∷◌, Option, none, some, arith, ltb, ◌==◌,
  Bool-cases, inl, inr,
}
use go_mahjong.Yaku.{HuClaim}
use go_mahjong.Engine.Ending.{select_loop, select_stick_winner_ron_a}

-- How many seats after the loser the winner of a claim sits.
abbrev pub distance : ℕ → HuClaim → ℕ
distance loser c = (c.winner_seat + 4 - loser) % 4

-- No winner other than the loser sits nearer.
pub data NoneNearer (loser n : ℕ) : List HuClaim → Type 0 where
  checked : NoneNearer loser n []
  check :
      (c : HuClaim) (cs : List HuClaim)
      → (distance loser c ≡ 0) ⊎ (n ≤ distance loser c)
      → NoneNearer loser n cs
      → NoneNearer loser n (c ∷ cs)

-- The loop keeps what it had, or finds a claim nearer than that.
data Looped (loser : ℕ) (cs : List HuClaim) (best : Option ℕ) (n : ℕ) : Option ℕ → Type 0 where
  kept : NoneNearer loser n cs → Looped loser cs best n best
  found :
      (c : HuClaim)
      → Memᴰ c cs
      → 0 < distance loser c
      → distance loser c < n
      → NoneNearer loser (distance loser c) cs
      → Looped loser cs best n (some c.winner_seat)

Looped-skip :
    (loser : ℕ) (c : HuClaim) (cs : List HuClaim) (best : Option ℕ) (n : ℕ) {w : Option ℕ}
    → (distance loser c ≡ 0) ⊎ (n ≤ distance loser c)
    → Looped loser cs best n w
    → Looped loser (c ∷ cs) best n w
Looped-skip loser c cs best n far (kept none_nearer) = kept (check c cs far none_nearer)
Looped-skip loser c cs best n far (found d m away nearer none_nearer) =
    found d (Memᴰ.tail m) away nearer (check c cs (ground (arith, far, nearer)) none_nearer)

Looped-take :
    (loser : ℕ) (c : HuClaim) (cs : List HuClaim) (best : Option ℕ) (n : ℕ) {w : Option ℕ}
    → 0 < distance loser c
    → distance loser c < n
    → Looped loser cs (some c.winner_seat) (distance loser c) w
    → Looped loser (c ∷ cs) best n w
Looped-take loser c cs best n away near (kept none_nearer) =
    found c (Memᴰ.head refl) away near (check c cs (inr (omega arith)) none_nearer)
Looped-take loser c cs best n away near (found d m d_away nearer none_nearer) =
    found d (Memᴰ.tail m) d_away (omega (arith, near, nearer))
      (check c cs (inr (omega (arith, nearer))) none_nearer)

select_loop-Looped :
    (loser : ℕ) (cs : List HuClaim) (best : Option ℕ) (n : ℕ)
    → Looped loser cs best n (select_loop loser cs best n)
unfolding select_loop
select_loop-Looped loser [] best n = kept checked
select_loop-Looped loser (c ∷ cs) best n = elim (Bool-cases (distance loser c == 0)) [
  | inl e ↦
      rw (e, select_loop)
        (Looped-skip loser c cs best n (inl (ground (arith, e)))
          (select_loop-Looped loser cs best n))
  | inr e ↦ elim (Bool-cases (ltb (distance loser c) n)) [
    | inl near ↦
        rw (e, near, select_loop)
          (Looped-take loser c cs best n (ground (arith, e)) (ground (arith, near))
            (select_loop-Looped loser cs (some c.winner_seat) (distance loser c)))
    | inr far ↦
        rw (e, far, select_loop)
          (Looped-skip loser c cs best n (inr (ground (arith, far)))
            (select_loop-Looped loser cs best n))
  ]
]

-- Who takes the sticks of the claims on one loser's discard.
pub data StickWinner (loser : ℕ) (cs : List HuClaim) : Option ℕ → Type 0 where
  nobody : NoneNearer loser 5 cs → StickWinner loser cs none
  nearest :
      (c : HuClaim)
      → Memᴰ c cs
      → 0 < distance loser c
      → NoneNearer loser (distance loser c) cs
      → StickWinner loser cs (some c.winner_seat)

Looped-StickWinner :
    (loser : ℕ) (cs : List HuClaim) {w : Option ℕ}
    → Looped loser cs none 5 w
    → StickWinner loser cs w
Looped-StickWinner loser cs (kept none_nearer) = nobody none_nearer
Looped-StickWinner loser cs (found c m away near none_nearer) = nearest c m away none_nearer

-- With claims against the loser of the first, the winner of the sticks is one of the winners,
-- not the loser, and no other sits nearer after the loser; there is none only if nobody but the
-- loser wins.
pub select_stick_winner_ron_a-StickWinner :
    (c : HuClaim) (cs : List HuClaim)
    → StickWinner c.loser_seat (c ∷ cs) (select_stick_winner_ron_a (c ∷ cs))
unfolding select_stick_winner_ron_a
select_stick_winner_ron_a-StickWinner c cs =
    Looped-StickWinner c.loser_seat (c ∷ cs) (select_loop-Looped c.loser_seat (c ∷ cs) none 5)
