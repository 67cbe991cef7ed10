-- ===== src/Search/Agari.antt =====
-- The winning shapes of searcher.go against their rules.
use go_mahjong.Common.{
  ℕ, zero, suc, ◌+◌, ◌-◌, ◌≤◌, ◌<◌, ◌≡◌, ◌↔◌, inl, inr, refl, sym, ◌∙◌, subst, true, false, List,
  arith, ltb, ◌==◌, if◌then◌else◌, length, Bool-cases,
}
use go_mahjong.Search.{Hand34, count_at, sub_at, can_form_melds, pair_loop, is_agari_normal}
use go_mahjong.Search.Groups.{Group, AllGroups, total, IsSplit}
use go_mahjong.Search.Counts.{count_at_eq, count_at-sub_at, length-sub_at}
use go_mahjong.Search.Splits.{can_form_melds_iff}

-- A pair of tile `i` that `pair_loop` accepts.
abbrev Accepts : Hand34 → ℕ → ℕ → Type 0
Accepts h need i = (2 ≤ count_at h i) × ((can_form_melds need (sub_at h i 2)).1 ≡ true)

pair_loop_finds :
    (n j : ℕ) (h : Hand34) (need : ℕ)
    → pair_loop n j h need ≡ true
    → (i : ℕ) × (i < j + n) × Accepts h need i
unfolding pair_loop
pair_loop_finds zero j h need e = cc
pair_loop_finds (suc n) j h need e = elim (Bool-cases (ltb (count_at h j) 2)) [
  | inl few ↦ let (i, p, a) = pair_loop_finds n (j + 1) h need (rw few at e) in (i, omega arith, a)
  | inr many ↦ elim (Bool-cases (can_form_melds need (sub_at h j 2)).1) [
    | inl yes' ↦ (j, omega arith, (ground arith, yes'))
    | inr no' ↦
        let (i, p, a) = pair_loop_finds n (j + 1) h need (ground arith) in (i, omega arith, a)
  ]
]

pair_loop_complete :
    (n j : ℕ) (h : Hand34) (need i : ℕ)
    → j ≤ i
    → i < j + n
    → Accepts h need i
    → pair_loop n j h need ≡ true
unfolding pair_loop
pair_loop_complete zero j h need i p q a = absurd (omega arith)
pair_loop_complete (suc n) j h need i p q a =
    ground (arith, pair_loop_complete n (j + 1) h need i, pair_here)
  where
    pair_here : j ≡ i → (2 ≤ count_at h j) × ((can_form_melds need (sub_at h j 2)).1 ≡ true)
    pair_here e = subst (Accepts h need) (sym e) a

-- The hand is a pair and the groups that are not called yet.
pub record IsWinning (h : Hand34) (fixed_melds : ℕ) : Type 0 where
  pub called : fixed_melds ≤ 4
  pub pair : ℕ
  pub pair_in_range : pair < 34
  pub groups : List Group
  pub size : length groups ≡ 4 - fixed_melds
  pub are_groups : AllGroups groups
  pub exact : (k : ℕ) → k < 34 → count_at h k ≡ (if pair == k then 2 else 0) + total groups k

normal_sound :
    (h : Hand34) (fixed_melds : ℕ)
    → length h ≡ 34
    → is_agari_normal h fixed_melds ≡ true
    → IsWinning h fixed_melds
unfolding is_agari_normal
normal_sound h fixed_melds size e =
    let few : ltb 4 fixed_melds ≡ false = ground arith in
    let (i, p, (two, formed)) = pair_loop_finds 34 0 h (4 - fixed_melds) (rw few at e) in
    let (gs, v) =
      ((can_form_melds_iff (4 - fixed_melds) (sub_at h i 2) (length-sub_at h i 2 ∙ size)).1).0
        formed in
    record {
      called = ground arith;
      pair = i;
      pair_in_range = omega arith;
      groups = gs;
      size = v.size;
      are_groups = v.groups;
      exact = λ k q. ground (arith, count_at-sub_at h i 2 k, v.exact k, count_at_eq h i k);
    }

normal_complete :
    (h : Hand34) (fixed_melds : ℕ)
    → length h ≡ 34
    → IsWinning h fixed_melds
    → is_agari_normal h fixed_melds ≡ true
unfolding is_agari_normal
normal_complete h fixed_melds size w =
    let two : 2 ≤ count_at h w.pair = ground (arith, w.exact w.pair w.pair_in_range) in
    let split : IsSplit (sub_at h w.pair 2) (4 - fixed_melds) w.groups = record {
      size = w.size;
      groups = w.are_groups;
      exact =
          λ k q. ground (arith, count_at-sub_at h w.pair 2 k, w.exact k, count_at_eq h w.pair k);
    } in
    let formed =
      ((can_form_melds_iff (4 - fixed_melds) (sub_at h w.pair 2)
        (length-sub_at h w.pair 2 ∙ size)).1
      ).1
        (w.groups, split) in
    let found =
      pair_loop_complete 34 0 h (4 - fixed_melds) w.pair (omega arith)
        (omega (arith, w.pair_in_range)) (two, formed) in
    let few : ltb 4 fixed_melds ≡ false = ground (arith, w.called) in rw (few, found) refl

-- On 34 counters, IsAgariNormal answers true exactly if at most four melds are called and the
-- hand is a pair and the groups that are left to form.
pub is_agari_normal_iff :
    (h : Hand34) (fixed_melds : ℕ)
    → length h ≡ 34
    → (is_agari_normal h fixed_melds ≡ true) ↔ IsWinning h fixed_melds
is_agari_normal_iff h fixed_melds size =
    (normal_sound h fixed_melds size, normal_complete h fixed_melds size)
