-- ===== src/Search/Shanten/Normal.antt =====
-- `dfsNormalShanten` comes to an end, restores the hand, and finds -1 exactly if the hand holds a win.
use go_mahjong.Common.{
  ℕ, zero, suc, ◌+◌, ◌-◌, ◌≤◌, ◌<◌, ◌≡◌, ◌⊎◌, ◌↔◌, inl, inr, refl, ap, subst, true, ◌&&◌, List, [],
  ◌∷◌, some, arith, ltb, ◌==◌, if◌then◌else◌, length, Bool-cases, Option-cases,
}
use go_mahjong.Common.Int.{ℤ, pos, negsuc, neg_part}
use go_mahjong.Search.{Hand34, count_at, first_tile}
use go_mahjong.Search.Groups.{Group, AllGroups, total, First, first_tile-First}
use go_mahjong.Search.Splits.{First-some, First-none, some_tile}
use go_mahjong.Search.Shanten.{
  lower, shanten_at, dfs_normal_shanten, branches, tile_count, shanten_normal,
}
use go_mahjong.Search.Shanten.Answer.{is_negative, Holds, IsRight, explore-Answer}
use go_mahjong.Search.Shanten.Branches.{branches-AllGood, branches_sound}
use go_mahjong.Search.Shanten.Leads.{branches_complete}

-- What comparing with the value of this node changes.
module _ (m p t : ℕ) (best : ℤ) (few : m ≤ 4) (one : p ≤ 1) where
  lower_keeps : is_negative best ≡ true → is_negative (lower (shanten_at m p t) best) ≡ true
  unfolding shanten_at
  lower_keeps e = ground arith

  lower_floor : neg_part best ≤ 1 → neg_part (lower (shanten_at m p t) best) ≤ 1
  unfolding shanten_at
  lower_floor e = ground arith

  lower_sound :
      is_negative (lower (shanten_at m p t) best) ≡ true
      → (is_negative best ≡ true) ⊎ ((m ≡ 4) × (p ≡ 1))
  unfolding shanten_at
  lower_sound e = elim (Bool-cases (is_negative best)) [
    | inl o ↦ inl o
    | inr o ↦ inr (ground arith)
  ]

  lower_complete : m ≡ 4 → p ≡ 1 → is_negative (lower (shanten_at m p t) best) ≡ true
  unfolding shanten_at
  lower_complete e e' = ground arith

complete-Holds : (m p : ℕ) (h : Hand34) → m ≡ 4 → p ≡ 1 → Holds m p h
complete-Holds m p h e e' = record {
  called = omega arith;
  pair = 0;
  pair_in_range = omega arith;
  groups = [];
  size = omega arith;
  are_groups = tt;
  within = λ k q. ground arith;
}

-- A hand of no tiles holds nothing.
empty-Holds :
    (m p : ℕ) (h : Hand34)
    → ((j : ℕ) → 0 ≤ j → j < 34 → count_at h j ≡ 0)
    → p ≤ 1
    → Holds m p h
    → (m ≡ 4) × (p ≡ 1)
empty-Holds m p h z one x = elim (Bool-cases (p == 0)) [
  | inl e ↦
      absurd
        (ground (arith, x.within x.pair x.pair_in_range, z x.pair (omega arith) x.pair_in_range))
  | inr e ↦ (no_groups x.groups x.size x.are_groups x.within, ground arith)
]
  where
    no_groups :
        (gs : List Group)
        → length gs ≡ 4 - m
        → AllGroups gs
        → ((k : ℕ) → k < 34 → (if p == 0 && x.pair == k then 2 else 0) + total gs k ≤ count_at h k)
        → m ≡ 4
    no_groups [] s a w = omega (arith, s, x.called)
    no_groups (g ∷ gs) s a w =
        let (k, q, c) = some_tile g a.0 in absurd (omega (arith, w k q, z k (omega arith) q))

pub dfs_normal_shanten-IsRight : (fuel : ℕ) → IsRight fuel (dfs_normal_shanten fuel)
unfolding dfs_normal_shanten
dfs_normal_shanten-IsRight zero m p t h best size few one = absurd (omega arith)
dfs_normal_shanten-IsRight (suc fuel) m p t h best size few one = elim (Bool-cases (ltb 4 m)) [
  | inl over ↦
      rw (over, dfs_normal_shanten)
        (record {
          value = best;
          returns = refl;
          keeps = λ n. n;
          floor = λ n. n;
          sound = λ n. inl n;
          complete = λ x. absurd (ground (arith, x.called));
        })
  | inr open' ↦
      let four : m ≤ 4 = ground arith in
      let best' = lower (shanten_at m p t) best in
      let back : is_negative best' ≡ true → (is_negative best ≡ true) ⊎ Holds m p h = λ n.
        elim (lower_sound m p t best four one n) [
          | inl o ↦ inl o
          | inr (e, e') ↦ inr (complete-Holds m p h e e')
        ] in
      elim (Option-cases (first_tile 34 0 h)) [
        | inl e ↦
            let z = First-none (subst (First h 0 34) e (first_tile-First 34 0 h)) in
            rw (open', e, dfs_normal_shanten)
              (record {
                value = best';
                returns = refl;
                keeps = lower_keeps m p t best four one;
                floor = lower_floor m p t best four one;
                sound = back;
                complete = λ x.
                    let (a, b) = empty-Holds m p h z one x in
                    lower_complete m p t best four one a b;
              })
        | inr (i, e) ↦
            let (_, c, z) = First-some (subst (First h 0 34) e (first_tile-First 34 0 h)) in
            let z' : (j : ℕ) → j < i → count_at h j ≡ 0 = λ j. z j (omega arith) in
            let a =
              explore-Answer fuel (dfs_normal_shanten fuel) (branches i m p t) h best'
                (dfs_normal_shanten-IsRight fuel) (omega arith)
                (branches-AllGood h size i m p t one c) in
            rw (open', e, dfs_normal_shanten)
              (record {
                value = a.value;
                returns = a.returns;
                keeps = λ n. a.keeps (lower_keeps m p t best four one n);
                floor = λ n. a.floor (lower_floor m p t best four one n);
                sound = λ n. elim (a.sound n) [
                  | inl o ↦ back o
                  | inr s ↦ inr (branches_sound h size i m p t one c s)
                ];
                complete = λ x. a.complete (branches_complete h size i m p t one c z' x);
              })
      ]
]

-- With more fuel than the hand has tiles, with at most one pair found, dfsNormalShanten ends and
-- leaves the 34 counters as they were.
pub dfs_normal_shanten_returns :
    (fuel m p t : ℕ) (h : Hand34) (best : ℤ)
    → length h ≡ 34
    → tile_count h < fuel
    → p ≤ 1
    → (value : ℤ) × (dfs_normal_shanten fuel m p t h best ≡ some (h, value))
dfs_normal_shanten_returns fuel m p t h best size enough one =
    let a = dfs_normal_shanten-IsRight fuel m p t h best size enough one in (a.value, a.returns)

minus_one : (v : ℤ) → neg_part v ≤ 1 → is_negative v ≡ true → v ≡ negsuc 0
minus_one v p e = ground arith

-- On 34 counters ShantenNormal gives a number that is at least -1, and -1 exactly if at most
-- four melds are called and the hand holds the groups that are left and a pair.
pub shanten_normal_iff :
    (h : Hand34) (fixed_melds : ℕ)
    → length h ≡ 34
    → ((value : ℤ) × (shanten_normal h fixed_melds ≡ some value) × (neg_part value ≤ 1))
      × ((shanten_normal h fixed_melds ≡ some (negsuc 0)) ↔ Holds fixed_melds 0 h)
unfolding shanten_normal
shanten_normal_iff h fixed_melds size =
    let a =
      dfs_normal_shanten-IsRight (suc (tile_count h)) fixed_melds 0 0 h (pos 8) size (omega arith)
        (omega arith) in
    let low = a.floor (omega arith) in
    rw (a.returns, shanten_normal)
      (
        (a.value, refl, low),
        (
          λ e. elim (a.sound (ground arith)) [ inl o ↦ absurd (cc) | inr x ↦ x ],
          λ x. ap (λ (v : ℤ). some v) (minus_one a.value low (a.complete x)),
        ),
      )
