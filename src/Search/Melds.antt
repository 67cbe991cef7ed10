-- ===== src/Search/Melds.antt =====
-- `canFormMelds` of searcher.go: the search by backtracking restores the hand.
use go_mahjong.Common.{
  ℕ, zero, suc, ◌≤◌, ◌≡◌, inl, inr, refl, ◌∙◌, Bool, true, false, ◌&&◌, ◌||◌, none, some, arith,
  leb, length, Option-cases,
}
use go_mahjong.Search.{
  Hand34, count_at, sub_at, add_at, sub_run, add_run, has_run, run_fits, all_zero, first_tile,
  try_branch, can_form_melds,
}
use go_mahjong.Search.Counts.{
  count_at_in_range, length-sub_at, length-sub_run, restored, restored_run,
}

-- The search without the edits in place.
unfoldable pub melds_exist : ℕ → Hand34 → Bool
melds_exist zero h = all_zero 34 0 h
melds_exist (suc need) h = elim (first_tile 34 0 h) [
  | none ↦ false
  | some i ↦
      (leb 3 (count_at h i) && melds_exist need (sub_at h i 3))
      || ((run_fits i && has_run h i) && melds_exist need (sub_run h i))
]

-- A branch that undoes its edit leaves the hand, and succeeds if it or a later branch does.
try_branch_lem :
    (guard ok later : Bool) (h' h : Hand34) (undo : Hand34 → Hand34) (next : Hand34 → Hand34 × Bool)
    → (guard ≡ true → undo h' ≡ h)
    → next h ≡ (h, later)
    → try_branch guard (h', ok) undo h next ≡ (h, (guard && ok) || later)
unfolding try_branch
try_branch_lem false ok later h' h undo next undone e = e
try_branch_lem true true later h' h undo next undone e = rw (undone refl) refl
try_branch_lem true false later h' h undo next undone e = rw (undone refl) e

try_last_lem :
    (guard ok : Bool) (h' h : Hand34) (undo : Hand34 → Hand34)
    → (guard ≡ true → undo h' ≡ h)
    → try_branch guard (h', ok) undo h (λ g. (g, false)) ≡ (h, guard && ok)
unfolding try_branch
try_last_lem false ok h' h undo undone = refl
try_last_lem true true h' h undo undone = rw (undone refl) refl
try_last_lem true false h' h undo undone = rw (undone refl) refl

run_guard : (h : Hand34) (i : ℕ) → (run_fits i && has_run h i) ≡ true → has_run h i ≡ true
run_guard h i e = ground arith

triplet_guard : (h : Hand34) (i : ℕ) → leb 3 (count_at h i) ≡ true → add_at (sub_at h i 3) i 3 ≡ h
triplet_guard h i e =
    let enough : 3 ≤ count_at h i = ground arith in
    restored h i 3 enough (count_at_in_range h i (omega arith))

-- `canFormMelds` answers whether the search succeeds, and leaves the hand as it was.
pub can_form_melds-melds_exist :
    (need : ℕ) (h : Hand34) → length h ≡ 34 → can_form_melds need h ≡ (h, melds_exist need h)
unfolding can_form_melds melds_exist
can_form_melds-melds_exist zero h size = refl
can_form_melds-melds_exist (suc need) h size = elim (Option-cases (first_tile 34 0 h)) [
  | inl e ↦ rw (e, can_form_melds, melds_exist) refl
  | inr (i, e) ↦
      let by_triplet =
        can_form_melds-melds_exist need (sub_at h i 3) (length-sub_at h i 3 ∙ size) in
      let by_run = can_form_melds-melds_exist need (sub_run h i) (length-sub_run h i ∙ size) in
      rw (e, can_form_melds, melds_exist, by_triplet)
        (try_branch_lem (leb 3 (count_at h i)) (melds_exist need (sub_at h i 3)) _ (sub_at h i 3) h
          _ _ (triplet_guard h i)
          (rw by_run (
            try_last_lem (run_fits i && has_run h i) (melds_exist need (sub_run h i)) (sub_run h i)
              h (λ g. add_run g i) (λ g. restored_run h i (run_guard h i g)))))
]
