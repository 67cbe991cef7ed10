-- ===== src/Search/Shanten/Branches.antt =====
-- The branches of `dfsNormalShanten`: they can be undone, and one of them leads to a winning hand if there is one.
use go_mahjong.Common.{
  ℕ, ◌+◌, ◌≤◌, ◌<◌, ◌≡◌, inl, inr, refl, ap, ◌∙◌, true, ◌&&◌, ◌∷◌, arith, leb, ◌==◌, length,
  Bool-cases, &&_iff,
}
use go_mahjong.Search.{Hand34, count_at, sub_at, has_run, run_fits, is_number_tile}
use go_mahjong.Search.Groups.{triplet, run, run_fits_iff}
use go_mahjong.Search.Counts.{
  count_at_in_range, count_at_eq, count_at-sub_at, count_at-sub_run, length-sub_at, length-sub_run,
  restored, restored_run, has_run_counts, run_tiles,
}
use go_mahjong.Search.Shanten.{
  Branch, by_triplet, by_run, by_pair, by_two, by_leaving, branches, has_two, tile_count,
}
use go_mahjong.Search.Shanten.Total.{
  tile_count-sub_at, tile_count-sub_run, tile_count-sub_two, length-sub_two, restored_two,
  count_at-sub_two,
}
use go_mahjong.Search.Shanten.Answer.{Holds, IsGood, AllGood, Leads, SomeLeads}

module _ (h : Hand34) (size : length h ≡ 34) (i m p t : ℕ) (one : p ≤ 1) where
  taking-IsGood :
      (n : ℕ) (b : Branch)
      → 0 < n
      → n ≤ count_at h i
      → b.edit h ≡ sub_at h i n
      → b.undo (sub_at h i n) ≡ h
      → b.pair ≤ 1
      → IsGood h b
  taking-IsGood n b z enough e u q = record {
    size = ap (λ (g : Hand34). length g) e ∙ length-sub_at h i n ∙ size;
    fewer = omega (arith, ap tile_count e, tile_count-sub_at h i n z enough);
    undone = ap b.undo e ∙ u;
    one_pair = q;
  }

  at_least : (n : ℕ) → 0 < n → n ≤ count_at h i → i < length h
  at_least n z enough = count_at_in_range h i (omega arith)

  triplet-IsGood : leb 3 (count_at h i) ≡ true → IsGood h (by_triplet i m p t)
  triplet-IsGood e =
      let enough : 3 ≤ count_at h i = ground arith in
      taking-IsGood 3 _ (omega arith) enough refl
        (restored h i 3 enough (at_least 3 (omega arith) enough)) one

  pair-IsGood : (p == 0 && leb 2 (count_at h i)) ≡ true → IsGood h (by_pair i m p t)
  pair-IsGood e =
      let enough : 2 ≤ count_at h i = ground arith in
      taking-IsGood 2 _ (omega arith) enough refl
        (restored h i 2 enough (at_least 2 (omega arith) enough)) (omega arith)

  leaving-IsGood : 0 < count_at h i → IsGood h (by_leaving i m p t)
  leaving-IsGood enough =
      taking-IsGood 1 _ (omega arith) enough refl
        (restored h i 1 enough (at_least 1 (omega arith) enough)) one

  run-IsGood : (run_fits i && has_run h i) ≡ true → IsGood h (by_run i m p t)
  run-IsGood e =
      let has = ((&&_iff (run_fits i) (has_run h i)).0 e).1 in
      record {
        size = length-sub_run h i ∙ size;
        fewer = omega (arith, tile_count-sub_run h i has);
        undone = restored_run h i has;
        one_pair = one;
      }

  two-IsGood : (k : ℕ) → 0 < k → (by_two k i m p t).guard h ≡ true → IsGood h (by_two k i m p t)
  two-IsGood k z e =
      let has = ((&&_iff _ (has_two h i (i + k))).0 e).1 in
      record {
        size = length-sub_two h i (i + k) (omega arith) has ∙ size;
        fewer = omega (arith, tile_count-sub_two h i (i + k) (omega arith) has);
        undone = restored_two h i (i + k) (omega arith) has;
        one_pair = one;
      }

  pub branches-AllGood : 0 < count_at h i → AllGood h (branches i m p t)
  unfolding branches
  branches-AllGood some = elim (Bool-cases (is_number_tile i)) [
    | inl e ↦ rw e (
      triplet-IsGood,
      (
        run-IsGood,
        (
          pair-IsGood,
          (
            two-IsGood 1 (omega arith),
            (two-IsGood 2 (omega arith), (λ _. leaving-IsGood some, tt)),
          ),
        ),
      ),
    )
    | inr e ↦ rw e (triplet-IsGood, (pair-IsGood, (λ _. leaving-IsGood some, tt)))
  ]

  -- What a branch leads to, the hand held before.
  fewer_tiles :
      (g : Hand34) → ((k : ℕ) → k < 34 → count_at g k ≤ count_at h k) → Holds m p g → Holds m p h
  fewer_tiles g le x = record {
    called = x.called;
    pair = x.pair;
    pair_in_range = x.pair_in_range;
    groups = x.groups;
    size = x.size;
    are_groups = x.are_groups;
    within = λ k q. omega (arith, le k q, x.within k q);
  }

  triplet_sound : Leads h (by_triplet i m p t) → Holds m p h
  triplet_sound (e, x) =
      let enough : 3 ≤ count_at h i = ground arith in
      let inside = at_least 3 (omega arith) enough in
      record {
        called = omega (arith, x.called);
        pair = x.pair;
        pair_in_range = x.pair_in_range;
        groups = triplet i ∷ x.groups;
        size = omega (arith, x.size, x.called);
        are_groups = (omega arith, x.are_groups);
        within =
            λ k q. ground (arith, count_at-sub_at h i 3 k inside, x.within k q, count_at_eq h i k);
      }

  run_sound : Leads h (by_run i m p t) → Holds m p h
  run_sound (e, x) =
      let (fits, has) = (&&_iff (run_fits i) (has_run h i)).0 e in
      let inside = count_at_in_range h (i + 2) (has_run_counts h i has).2 in
      record {
        called = omega (arith, x.called);
        pair = x.pair;
        pair_in_range = x.pair_in_range;
        groups = run i ∷ x.groups;
        size = omega (arith, x.size, x.called);
        are_groups = (ground (arith, run_fits_iff i), x.are_groups);
        within =
            λ k q. omega (arith, count_at-sub_run h i k inside, x.within k q, run_tiles h i k has);
      }

  pair_sound : Leads h (by_pair i m p t) → Holds m p h
  pair_sound (e, x) =
      let enough : 2 ≤ count_at h i = ground arith in
      let inside = at_least 2 (omega arith) enough in
      record {
        called = x.called;
        pair = i;
        pair_in_range = omega arith;
        groups = x.groups;
        size = x.size;
        are_groups = x.are_groups;
        within =
            λ k q. ground (arith, count_at-sub_at h i 2 k inside, x.within k q, count_at_eq h i k);
      }

  two_sound : (k : ℕ) → 0 < k → Leads h (by_two k i m p t) → Holds m p h
  two_sound k z (e, x) =
      let has = ((&&_iff _ (has_two h i (i + k))).0 e).1 in
      fewer_tiles _ (λ j _. count_at-sub_two h i (i + k) (omega arith) has j) x

  leaving_sound : 0 < count_at h i → Leads h (by_leaving i m p t) → Holds m p h
  leaving_sound some (e, x) =
      fewer_tiles _ (λ j _. omega (arith, count_at-sub_at h i 1 j (count_at_in_range h i some))) x

  pub branches_sound : 0 < count_at h i → SomeLeads h (branches i m p t) → Holds m p h
  unfolding branches
  branches_sound some s = elim (Bool-cases (is_number_tile i)) [
    | inl e ↦ elim (rw e at s) [
      | inl x ↦ triplet_sound x
      | inr (inl x) ↦ run_sound x
      | inr (inr (inl x)) ↦ pair_sound x
      | inr (inr (inr (inl x))) ↦ two_sound 1 (omega arith) x
      | inr (inr (inr (inr (inl x)))) ↦ two_sound 2 (omega arith) x
      | inr (inr (inr (inr (inr (inl x))))) ↦ leaving_sound some x
      | inr (inr (inr (inr (inr (inr x))))) ↦ elim x [ ]
    ]
    | inr e ↦ elim (rw e at s) [
      | inl x ↦ triplet_sound x
      | inr (inl x) ↦ pair_sound x
      | inr (inr (inl x)) ↦ leaving_sound some x
      | inr (inr (inr x)) ↦ elim x [ ]
    ]
  ]
