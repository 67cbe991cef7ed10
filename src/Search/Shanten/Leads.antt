-- ===== src/Search/Shanten/Leads.antt =====
-- Where a hand holds what is missing, a branch of `dfsNormalShanten` on its first tile leads there.
use go_mahjong.Common.{
  ℕ, ◌+◌, ◌≤◌, ◌<◌, ◌≡◌, ◌⊎◌, inl, inr, refl, ap, subst, true, ◌&&◌, arith, ltb, leb, ◌==◌,
  if◌then◌else◌, length, Bool-cases,
}
use go_mahjong.Search.{Hand34, count_at, has_run, run_fits, is_number_tile}
use go_mahjong.Search.Groups.{
  triplet, run, IsGroup, tiles_of, total, run_fits_iff, Extracted, extract,
}
use go_mahjong.Search.Counts.{count_at_in_range, count_at_eq, count_at-sub_at, count_at-sub_run}
use go_mahjong.Search.Splits.{first_group}
use go_mahjong.Search.Shanten.{by_triplet, by_run, by_pair, by_leaving, branches}
use go_mahjong.Search.Shanten.Answer.{Holds, Leads, SomeLeads}

module _ (h : Hand34) (size : length h ≡ 34) (i m p t : ℕ) (one : p ≤ 1) (some : 0 < count_at h i)
    (first : (j : ℕ) → j < i → count_at h j ≡ 0) (x : Holds m p h) where
  inside : i < 34
  inside = omega (arith, count_at_in_range h i some, size)

  has_pair : p ≡ 0 → x.pair ≡ i → Leads h (by_pair i m p t)
  has_pair z e = (
    ground (arith, x.within i inside),
    record {
      called = x.called;
      pair = i;
      pair_in_range = inside;
      groups = x.groups;
      size = x.size;
      are_groups = x.are_groups;
      within = λ k q. ground (
        arith,
        count_at-sub_at h i 2 k (omega (arith, inside, size)),
        x.within k q,
        count_at_eq h i k,
      );
    },
  )

  module _ (y : Extracted x.groups i) where
    has_triplet : y.group ≡ triplet i → Leads h (by_triplet i m p t)
    has_triplet e =
        let tiles : (k : ℕ) → tiles_of y.group k ≡ (if i == k then 3 else 0) = λ k. rw e in
        (
          ground (arith, x.within i inside, y.parts i, tiles i),
          record {
            called = omega (arith, x.size, y.size);
            pair = x.pair;
            pair_in_range = x.pair_in_range;
            groups = y.others;
            size = omega (arith, x.size, y.size);
            are_groups = y.are_groups;
            within = λ k q. omega (
              arith,
              count_at-sub_at h i 3 k (omega (arith, inside, size)),
              x.within k q,
              y.parts k,
              tiles k,
            );
          },
        )

    has_row : y.group ≡ run i → Leads h (by_run i m p t)
    has_row e =
        let valid = subst IsGroup e y.is_group in
        let tiles : (k : ℕ) → tiles_of y.group k ≡ (if leb i k && ltb k (i + 3) then 1 else 0) =
          λ k. rw e in
        (
          ground (
            arith,
            run_fits_iff i,
            valid,
            x.within i,
            x.within (i + 1),
            x.within (i + 2),
            y.parts i,
            y.parts (i + 1),
            y.parts (i + 2),
            tiles i,
            tiles (i + 1),
            tiles (i + 2),
          ),
          record {
            called = omega (arith, x.size, y.size);
            pair = x.pair;
            pair_in_range = x.pair_in_range;
            groups = y.others;
            size = omega (arith, x.size, y.size);
            are_groups = y.are_groups;
            within = λ k q. omega (
              arith,
              count_at-sub_run h i k (omega (arith, valid, size)),
              x.within k q,
              y.parts k,
              tiles k,
            );
          },
        )

    has_group : Leads h (by_triplet i m p t) ⊎ Leads h (by_run i m p t)
    has_group =
        let before : (j : ℕ) → j < i → tiles_of y.group j ≡ 0 =
          λ j q. omega (arith, x.within j (omega (arith, inside)), first j q, y.parts j) in
        elim (first_group y.group i y.has_tile before) [
          | inl e ↦ inl (has_triplet e)
          | inr e ↦ inr (has_row e)
        ]

  not_needed :
      (if p == 0 && x.pair == i then 2 else 0) + total x.groups i ≡ 0 → Leads h (by_leaving i m p t)
  not_needed z = (
    refl,
    record {
      called = x.called;
      pair = x.pair;
      pair_in_range = x.pair_in_range;
      groups = x.groups;
      size = x.size;
      are_groups = x.are_groups;
      within = λ k q. ground (
        arith,
        count_at-sub_at h i 1 k (omega (arith, inside, size)),
        x.within k q,
        z,
        ap (λ (j : ℕ). (if p == 0 && x.pair == j then 2 else 0) + total x.groups j) {x = i} {y = k},
      );
    },
  )

  some_branch :
      Leads h (by_triplet i m p t)
      ⊎ (Leads h (by_run i m p t) ⊎ (Leads h (by_pair i m p t) ⊎ Leads h (by_leaving i m p t)))
  some_branch = elim (Bool-cases (ltb 0 (total x.groups i))) [
    | inl e ↦ elim (has_group (extract x.groups i x.are_groups (ground arith))) [
      | inl y ↦ inl y
      | inr y ↦ inr (inl y)
    ]
    | inr e ↦ elim (Bool-cases (p == 0 && x.pair == i)) [
      | inl e' ↦ inr (inr (inl (has_pair (ground arith) (ground arith))))
      | inr e' ↦ inr (inr (inr (not_needed (ground arith))))
    ]
  ]

  number_run : (run_fits i && has_run h i) ≡ true → is_number_tile i ≡ true
  unfolding is_number_tile
  number_run e = ground (arith, run_fits_iff i)

  pub branches_complete : SomeLeads h (branches i m p t)
  unfolding branches
  branches_complete = elim (Bool-cases (is_number_tile i)) [
    | inl e ↦ rw e (elim some_branch [
      | inl y ↦ inl y
      | inr (inl y) ↦ inr (inl y)
      | inr (inr (inl y)) ↦ inr (inr (inl y))
      | inr (inr (inr y)) ↦ inr (inr (inr (inr (inr (inl y)))))
    ])
    | inr e ↦ rw e (elim some_branch [
      | inl y ↦ inl y
      | inr (inl y) ↦ absurd (cc (number_run y.0, e))
      | inr (inr (inl y)) ↦ inr (inl y)
      | inr (inr (inr y)) ↦ inr (inr (inl y))
    ])
  ]
