-- ===== src/Search/Shanten/Answer.antt =====
-- What a call of `dfsNormalShanten` answers: whether the hand holds the groups and the pair that are missing.
use go_mahjong.Common.{
  ℕ, ◌+◌, ◌-◌, ◌≤◌, ◌<◌, ◌≡◌, ◌⊎◌, inl, inr, refl, Bool, true, false, ◌&&◌, List, [], ◌∷◌, Option,
  some, arith, ◌==◌, if◌then◌else◌, length, Bool-cases,
}
use go_mahjong.Common.Int.{ℤ, pos, negsuc, neg_part}
use go_mahjong.Search.{Hand34, count_at}
use go_mahjong.Search.Groups.{Group, AllGroups, total}
use go_mahjong.Search.Shanten.{Branch, Call, follow, explore, tile_count}

abbrev pub is_negative : ℤ → Bool
is_negative (pos n) = false
is_negative (negsuc n) = true

-- Beside `m` melds, and `p` pairs, the hand holds the groups and the pair that a winning hand misses.
pub record Holds (m p : ℕ) (h : Hand34) : Type 0 where
  pub called : m ≤ 4
  pub pair : ℕ
  pub pair_in_range : pair < 34
  pub groups : List Group
  pub size : length groups ≡ 4 - m
  pub are_groups : AllGroups groups
  pub within :
      (k : ℕ) → k < 34 → (if p == 0 && pair == k then 2 else 0) + total groups k ≤ count_at h k

-- A search that found at least `best` before, on a hand of which `Found` says whether it wins.
pub record Answer (h : Hand34) (Found : Type 0) (best : ℤ) (r : Option (Hand34 × ℤ)) : Type 0 where
  pub value : ℤ
  pub returns : r ≡ some (h, value)
  pub keeps : is_negative best ≡ true → is_negative value ≡ true
  pub floor : neg_part best ≤ 1 → neg_part value ≤ 1
  pub sound : is_negative value ≡ true → (is_negative best ≡ true) ⊎ Found
  pub complete : Found → is_negative value ≡ true

-- An edit of the right length, that takes tiles, and can be undone.
pub record IsGood (h : Hand34) (b : Branch) : Type 0 where
  pub size : length (b.edit h) ≡ 34
  pub fewer : tile_count (b.edit h) < tile_count h
  pub undone : b.undo (b.edit h) ≡ h
  pub one_pair : b.pair ≤ 1

abbrev pub AllGood : Hand34 → List Branch → Type 0
AllGood h [] = Unit
AllGood h (b ∷ bs) = (b.guard h ≡ true → IsGood h b) × AllGood h bs

-- A branch whose guard passes leads to a winning hand.
abbrev pub Leads : Hand34 → Branch → Type 0
Leads h b = (b.guard h ≡ true) × Holds b.melds b.pair (b.edit h)

abbrev pub SomeLeads : Hand34 → List Branch → Type 0
SomeLeads h [] = ⊥
SomeLeads h (b ∷ bs) = Leads h b ⊎ SomeLeads h bs

-- A call is right on the hands of fewer than `bound` tiles.
abbrev pub IsRight : ℕ → Call → Type 0
IsRight bound call =
    (m p t : ℕ) (h : Hand34) (best : ℤ)
    → length h ≡ 34
    → tile_count h < bound
    → p ≤ 1
    → Answer h (Holds m p h) best (call m p t h best)

follow-Answer :
    (bound : ℕ) (call : Call) (b : Branch) (h : Hand34) (best : ℤ)
    → IsRight bound call
    → tile_count h ≤ bound
    → (b.guard h ≡ true → IsGood h b)
    → Answer h (Leads h b) best (follow call b h best)
unfolding follow
follow-Answer bound call b h best right few good = elim (Bool-cases (b.guard h)) [
  | inr shut ↦ rw shut (record {
    value = best;
    returns = refl;
    keeps = λ n. n;
    floor = λ n. n;
    sound = λ n. inl n;
    complete = λ (e, x). cc;
  })
  | inl passes ↦
      let g = good passes in
      let a =
        right b.melds b.pair b.partial (b.edit h) best g.size (omega (arith, g.fewer)) g.one_pair in
      rw (passes, a.returns, g.undone)
        (record {
          value = a.value;
          returns = refl;
          keeps = a.keeps;
          floor = a.floor;
          sound = λ n. elim (a.sound n) [ inl o ↦ inl o | inr x ↦ inr (refl, x) ];
          complete = λ (e, x). a.complete x;
        })
]

pub explore-Answer :
    (bound : ℕ) (call : Call) (bs : List Branch) (h : Hand34) (best : ℤ)
    → IsRight bound call
    → tile_count h ≤ bound
    → AllGood h bs
    → Answer h (SomeLeads h bs) best (explore call bs h best)
unfolding explore
explore-Answer bound call [] h best right few good = record {
  value = best;
  returns = refl;
  keeps = λ n. n;
  floor = λ n. n;
  sound = λ n. inl n;
  complete = λ x. elim x [ ];
}
explore-Answer bound call (b ∷ bs) h best right few good =
    let a = follow-Answer bound call b h best right few good.0 in
    let rest = explore-Answer bound call bs h a.value right few good.1 in
    rw (a.returns, explore)
      (record {
        value = rest.value;
        returns = rest.returns;
        keeps = λ n. rest.keeps (a.keeps n);
        floor = λ n. rest.floor (a.floor n);
        sound = λ n. elim (rest.sound n) [
          | inr x ↦ inr (inr x)
          | inl n' ↦ elim (a.sound n') [ inl o ↦ inl o | inr x ↦ inr (inl x) ]
        ];
        complete = λ x. elim x [ inl y ↦ rest.keeps (a.complete y) | inr y ↦ rest.complete y ];
      })
