-- ===== src/Search/Splits.antt =====
-- The search of `canFormMelds` in searcher.go succeeds exactly on the hands made of groups.
use go_mahjong.Common.{
  ℕ, zero, suc, ◌+◌, ◌≤◌, ◌<◌, ◌≡◌, ◌↔◌, ◌⊎◌, inl, inr, refl, ◌∙◌, subst, Bool, true, false, ◌&&◌,
  ◌||◌, List, [], ◌∷◌, none, some, arith, ltb, leb, ◌==◌, if◌then◌else◌, length, Bool-cases,
  Option-cases, &&_iff,
}
use go_mahjong.Search.{
  Hand34, count_at, sub_at, sub_run, has_run, run_fits, all_zero, first_tile, can_form_melds,
}
use go_mahjong.Search.Groups.{
  Group, triplet, run, IsGroup, tiles_of, IsSplit, run_fits_iff, First, nowhere, at,
  first_tile-First, Extracted, extract,
}
use go_mahjong.Search.Counts.{
  count_at_in_range, count_at_eq, count_at-sub_at, count_at-sub_run, length-sub_at, length-sub_run,
  has_run_counts, run_tiles,
}
use go_mahjong.Search.Melds.{melds_exist, can_form_melds-melds_exist}

all_zero_holds :
    (n i k : ℕ) (h : Hand34) → all_zero n i h ≡ true → i ≤ k → k < i + n → count_at h k ≡ 0
unfolding all_zero
all_zero_holds zero i k h e p q = absurd (omega arith)
all_zero_holds (suc n) i k h e p q = ground (arith, count_at_eq h i k, all_zero_holds n (i + 1) k h)

or_true : (b : Bool) → (b || true) ≡ true
or_true true = refl
or_true false = refl

all_zero_passes :
    (n i : ℕ) (h : Hand34)
    → ((k : ℕ) → i ≤ k → k < i + n → count_at h k ≡ 0)
    → all_zero n i h ≡ true
unfolding all_zero
all_zero_passes zero i h z = refl
all_zero_passes (suc n) i h z =
    rw (z i (omega arith) (omega arith))
      (all_zero_passes n (i + 1) h (λ k p q. z k (omega arith) (omega arith)))

pub First-some :
    {h : Hand34} {k n i : ℕ}
    → First h k n (some i)
    → (i < k + n) × (0 < count_at h i) × ((j : ℕ) → k ≤ j → j < i → count_at h j ≡ 0)
First-some (at i p q c f) = (q, c, f)

pub First-none :
    {h : Hand34} {k n : ℕ} → First h k n none → (j : ℕ) → k ≤ j → j < k + n → count_at h j ≡ 0
First-none (nowhere f) = f

-- A group taken off a hand, put back in front of the groups of the rest.
add_triplet :
    (h : Hand34) (i need : ℕ) (gs : List Group)
    → length h ≡ 34
    → leb 3 (count_at h i) ≡ true
    → IsSplit (sub_at h i 3) need gs
    → IsSplit h (suc need) (triplet i ∷ gs)
add_triplet h i need gs size e v =
    let enough : 3 ≤ count_at h i = ground arith in
    let inside = count_at_in_range h i (omega arith) in
    record {
      size = omega (arith, v.size);
      groups = (omega arith, v.groups);
      exact = λ k p. ground (arith, count_at-sub_at h i 3 k inside, v.exact k, count_at_eq h i k);
    }

add_run_group :
    (h : Hand34) (i need : ℕ) (gs : List Group)
    → length h ≡ 34
    → (run_fits i && has_run h i) ≡ true
    → IsSplit (sub_run h i) need gs
    → IsSplit h (suc need) (run i ∷ gs)
add_run_group h i need gs size e v =
    let (fits, has) = (&&_iff (run_fits i) (has_run h i)).0 e in
    let inside = count_at_in_range h (i + 2) (has_run_counts h i has).2 in
    record {
      size = omega (arith, v.size);
      groups = ground (arith, run_fits_iff i);
      exact = λ k p. omega (arith, count_at-sub_run h i k inside, v.exact k p, run_tiles h i k has);
    }

pub melds_exist_sound :
    (need : ℕ) (h : Hand34)
    → length h ≡ 34
    → melds_exist need h ≡ true
    → (gs : List Group) × IsSplit h need gs
unfolding melds_exist
melds_exist_sound zero h size e = (
  [],
  record {
    size = refl;
    groups = tt;
    exact = λ k p. all_zero_holds 34 0 k h e (omega arith) (omega arith);
  },
)
melds_exist_sound (suc need) h size e = elim (Option-cases (first_tile 34 0 h)) [
  | inl x ↦ cc (rw (x, melds_exist) at e)
  | inr (i, x) ↦
      let e' = rw (x, melds_exist) at e in
      elim (Bool-cases (leb 3 (count_at h i) && melds_exist need (sub_at h i 3))) [
        | inl three ↦
            let (enough, rest) = (&&_iff (leb 3 (count_at h i)) _).0 three in
            let (gs, v) = melds_exist_sound need (sub_at h i 3) (length-sub_at h i 3 ∙ size) rest in
            (triplet i ∷ gs, add_triplet h i need gs size enough v)
        | inr other ↦
            let (fits, rest) = (&&_iff (run_fits i && has_run h i) _).0 (rw other at e') in
            let (gs, v) = melds_exist_sound need (sub_run h i) (length-sub_run h i ∙ size) rest in
            (run i ∷ gs, add_run_group h i need gs size fits v)
      ]
]

-- The group of a split that has the first tile begins there.
take_triplet :
    (h : Hand34) (i need : ℕ) (gs : List Group)
    → length h ≡ 34
    → IsSplit h (suc need) gs
    → (x : Extracted gs i) → x.group ≡ triplet i
    → (leb 3 (count_at h i) ≡ true) × IsSplit (sub_at h i 3) need x.others
take_triplet h i need gs size v x e =
    let valid = subst IsGroup e x.is_group in
    let tiles : (k : ℕ) → tiles_of x.group k ≡ (if i == k then 3 else 0) = λ k. rw e in
    let enough : 3 ≤ count_at h i = ground (arith, v.exact i valid, x.parts i, tiles i) in
    (
      ground arith,
      record {
        size = omega (arith, v.size, x.size);
        groups = x.are_groups;
        exact = λ k p.
            omega (arith, count_at-sub_at h i 3 k (omega arith), v.exact k p, x.parts k, tiles k);
      },
    )

take_run :
    (h : Hand34) (i need : ℕ) (gs : List Group)
    → length h ≡ 34
    → IsSplit h (suc need) gs
    → (x : Extracted gs i) → x.group ≡ run i
    → ((run_fits i && has_run h i) ≡ true) × IsSplit (sub_run h i) need x.others
take_run h i need gs size v x e =
    let valid = subst IsGroup e x.is_group in
    let tiles : (k : ℕ) → tiles_of x.group k ≡ (if leb i k && ltb k (i + 3) then 1 else 0) =
      λ k. rw e in
    let inside : i + 2 < 34 = omega (arith, valid) in
    (
      ground (
        arith,
        run_fits_iff i,
        valid,
        v.exact i,
        v.exact (i + 1),
        v.exact (i + 2),
        x.parts i,
        x.parts (i + 1),
        x.parts (i + 2),
        tiles i,
        tiles (i + 1),
        tiles (i + 2),
      ),
      record {
        size = omega (arith, v.size, x.size);
        groups = x.are_groups;
        exact = λ k p.
            omega (arith, count_at-sub_run h i k (omega arith), v.exact k p, x.parts k, tiles k);
      },
    )

pub first_group :
    (g : Group) (i : ℕ)
    → 0 < tiles_of g i
    → ((j : ℕ) → j < i → tiles_of g j ≡ 0)
    → (g ≡ triplet i) ⊎ (g ≡ run i)
first_group (triplet j) i h z = inl (ground arith)
first_group (run j) i h z = inr (ground (arith, z j))

-- Every group has a tile.
pub some_tile : (g : Group) → IsGroup g → (k : ℕ) × (k < 34) × (0 < tiles_of g k)
some_tile (triplet j) v = (j, v, ground arith)
some_tile (run j) v = (j, omega (arith, v), ground arith)

not_empty :
    (h : Hand34) (need : ℕ) (gs : List Group)
    → IsSplit h (suc need) gs
    → ((j : ℕ) → 0 ≤ j → j < 34 → count_at h j ≡ 0)
    → ⊥
not_empty h need [] v z = omega (arith, v.size)
not_empty h need (g ∷ gs) v z =
    let (k, p, c) = some_tile g v.groups.0 in omega (arith, v.exact k p, z k (omega arith) p)

pub melds_exist_complete :
    (need : ℕ) (h : Hand34) (gs : List Group)
    → length h ≡ 34
    → IsSplit h need gs
    → melds_exist need h ≡ true
unfolding melds_exist
melds_exist_complete zero h [] size v = all_zero_passes 34 0 h (λ k p q. v.exact k (omega arith))
melds_exist_complete zero h (g ∷ gs) size v = absurd (omega (arith, v.size))
melds_exist_complete (suc need) h gs size v = elim (Option-cases (first_tile 34 0 h)) [
  | inl e ↦
      absurd (not_empty h need gs v (First-none (subst (First h 0 34) e (first_tile-First 34 0 h))))
  | inr (i, e) ↦
      let (p, c, z) = First-some (subst (First h 0 34) e (first_tile-First 34 0 h)) in
      let x = extract gs i v.groups (omega (arith, v.exact i (omega arith))) in
      let before : (j : ℕ) → j < i → tiles_of x.group j ≡ 0 =
        λ j q. omega (arith, v.exact j (omega arith), z j (omega arith) q, x.parts j) in
      rw (e, melds_exist)
        (elim (first_group x.group i x.has_tile before) [
          | inl three ↦
              let (enough, rest) = take_triplet h i need gs size v x three in
              let found =
                melds_exist_complete need (sub_at h i 3) x.others (length-sub_at h i 3 ∙ size)
                  rest in
              rw (enough, found) refl
          | inr row ↦
              let (fits, rest) = take_run h i need gs size v x row in
              let found =
                melds_exist_complete need (sub_run h i) x.others (length-sub_run h i ∙ size) rest in
              rw (fits, found) (or_true _)
        ])
]

-- canFormMelds, on 34 counters, leaves the counters as they were and answers true exactly if the
-- hand is the tiles of `need` triplets and runs, in any order and any overlap.
pub can_form_melds_iff :
    (need : ℕ) (h : Hand34)
    → length h ≡ 34
    → ((can_form_melds need h).0 ≡ h)
      × (((can_form_melds need h).1 ≡ true) ↔ ((gs : List Group) × IsSplit h need gs))
can_form_melds_iff need h size =
    rw (can_form_melds-melds_exist need h size)
      (refl, (melds_exist_sound need h size, λ (gs, v). melds_exist_complete need h gs size v))
