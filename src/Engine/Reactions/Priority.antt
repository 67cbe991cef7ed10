-- ===== src/Engine/Reactions/Priority.antt =====
-- Which answer to a dropped tile is carried out, whatever the order of Go's map.
use mathlib.Core.List.{Mem, mem-cons_self, mem-cons_of_mem}
use mathlib.Core.List.Perm
use go_mahjong.Common.{
  ℕ, ◌≡◌, refl, sym, ◌∙◌, true, false, List, [], ◌∷◌, Option, none, some, Perm, arith, count_by,
  count_by-perm, Bool-cases, inl, inr,
}
use go_mahjong.Engine.{OperationType, gang, peng, chi, PlayerReaction}
use go_mahjong.Engine.Reactions.{
  MapOrder, ReactionAction, chose, chosen_tiles, select_type, select_best_reaction,
}

abbrev pub Reactions : Type 0
Reactions = List (ℕ × PlayerReaction)

-- How many players chose an operation of the type.
abbrev pub choices : OperationType → Reactions → ℕ
choices type rs = count_by (λ e. chose type e.1) rs

-- The action is one that a player chose.
pub record IsChosen (type : OperationType) (rs : Reactions) (a : ReactionAction) : Type 0 where
  pub of_type : a.type ≡ type
  pub reaction : PlayerReaction
  pub among : Mem (a.player_seat, reaction) rs
  pub chosen : chose type reaction ≡ true
  pub its_tiles : a.tiles ≡ chosen_tiles reaction

-- A kan goes before a triplet, and a triplet before a run.
pub data Best (rs : Reactions) : Option ReactionAction → Type 0 where
  best_gang : {a : ReactionAction} → IsChosen gang rs a → Best rs (some a)
  best_peng : {a : ReactionAction} → choices gang rs ≡ 0 → IsChosen peng rs a → Best rs (some a)
  best_chi :
      {a : ReactionAction}
      → choices gang rs ≡ 0
      → choices peng rs ≡ 0
      → IsChosen chi rs a
      → Best rs (some a)
  no_call : choices gang rs ≡ 0 → choices peng rs ≡ 0 → choices chi rs ≡ 0 → Best rs none

-- One loop finds a choice of its type or there is none.
data Selected (type : OperationType) (rs : Reactions) : Option ReactionAction → Type 0 where
  found : {a : ReactionAction} → IsChosen type rs a → Selected type rs (some a)
  missing : choices type rs ≡ 0 → Selected type rs none

Selected-skip :
    (type : OperationType) (e : ℕ × PlayerReaction) (rs : Reactions) {o : Option ReactionAction}
    → chose type e.1 ≡ false
    → Selected type rs o
    → Selected type (e ∷ rs) o
Selected-skip type e rs other (found c) = found (record {
  of_type = c.of_type;
  reaction = c.reaction;
  among = mem-cons_of_mem e c.among;
  chosen = c.chosen;
  its_tiles = c.its_tiles;
})
Selected-skip type e rs other (missing z) = missing (ground (arith, other, z))

select_type-Selected :
    (type : OperationType) (rs : Reactions) → Selected type rs (select_type type rs)
unfolding select_type
select_type-Selected type [] = missing refl
select_type-Selected type ((seat, r) ∷ rs) = elim (Bool-cases (chose type r)) [
  | inl e ↦ rw e (
      found (record {
        of_type = refl;
        reaction = r;
        among = mem-cons_self;
        chosen = e;
        its_tiles = refl;
      }))
  | inr e ↦ rw e (Selected-skip type (seat, r) rs e (select_type-Selected type rs))
]

Selected-perm :
    (type : OperationType) {rs ss : Reactions} {o : Option ReactionAction}
    → Perm rs ss
    → Selected type rs o
    → Selected type ss o
Selected-perm type p (found c) = found (record {
  of_type = c.of_type;
  reaction = c.reaction;
  among = Perm.subset p _ c.among;
  chosen = c.chosen;
  its_tiles = c.its_tiles;
})
Selected-perm type p (missing z) = missing (sym (count_by-perm (λ e. chose type e.1) p) ∙ z)

Selected-Best :
    (rs : Reactions) {g p c : Option ReactionAction}
    → Selected gang rs g
    → Selected peng rs p
    → Selected chi rs c
    → Best rs (elim g [ some a ↦ some a | none ↦ elim p [ some a ↦ some a | none ↦ c ] ])
Selected-Best rs (found k) p c = best_gang k
Selected-Best rs (missing no_k) (found p) c = best_peng no_k p
Selected-Best rs (missing no_k) (missing no_p) (found c) = best_chi no_k no_p c
Selected-Best rs (missing no_k) (missing no_p) (missing no_c) = no_call no_k no_p no_c

-- Whatever the order in which the reactions are visited, the action carried out is a chosen kan
-- if there is one, else a chosen triplet, else a chosen run; there is none only if nobody chose
-- one.
pub select_best_reaction-Best :
    (order : MapOrder) (rs : Reactions) → Best rs (select_best_reaction order rs)
unfolding select_best_reaction
select_best_reaction-Best order rs =
    let kan =
      Selected-perm gang (order.visit-perm 1 rs) (select_type-Selected gang (order.visit 1 rs)) in
    let triplet =
      Selected-perm peng (order.visit-perm 2 rs) (select_type-Selected peng (order.visit 2 rs)) in
    let chow =
      Selected-perm chi (order.visit-perm 3 rs) (select_type-Selected chi (order.visit 3 rs)) in
    Selected-Best rs kan triplet chow
