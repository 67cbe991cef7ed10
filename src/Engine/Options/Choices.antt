-- ===== src/Engine/Options/Choices.antt =====
-- The tiles of an offered kan or triplet lie in the hand, side by side with what is left.
use go_mahjong.Common.{
  ℕ, suc, ◌≤◌, ◌≡◌, refl, ◌∙◌, ap, not, List, [], ◌∷◌, ◌++◌, some, arith, ltb, length, count_by,
  Bool-cases, inl, inr,
}
use go_mahjong.Tiles.{Tile, same_tile}
use go_mahjong.Player.{PlayerImage}
use go_mahjong.Engine.{OperationType, peng, gang, PlayerOperation}
use go_mahjong.Engine.Options.{
  is_same_tile, matching_tiles, singles, pairs, triples, cons_each, to_operations, can_peng,
  can_gang, get_peng_options, get_gang_options,
}

pub data Every {ℓ κ} {A : Type ℓ} (P : A → Type κ) : List A → Type (ℓ ⊔ κ) where
  every_nil : Every P []
  every_cons : {x : A} {xs : List A} → P x → Every P xs → Every P (x ∷ xs)

-- The tiles are some of the others, in their order.
pub data Sub : List Tile → List Tile → Type 0 where
  done : Sub [] []
  keep : (t : Tile) {ts us : List Tile} → Sub ts us → Sub (t ∷ ts) (t ∷ us)
  skip : (t : Tile) {ts us : List Tile} → Sub ts us → Sub ts (t ∷ us)

-- So many tiles out of the list.
pub record Choice (n : ℕ) (us : List Tile) (ts : List Tile) : Type 0 where
  pub size : length ts ≡ n
  pub sub : Sub ts us

module _ {ℓ κ} {A : Type ℓ} {P : A → Type κ} where
  Every-append : {xs ys : List A} → Every P xs → Every P ys → Every P (xs ++ ys)
  Every-append every_nil b = b
  Every-append (every_cons p a) b = every_cons p (Every-append a b)

Sub-nil : (us : List Tile) → Sub [] us
Sub-nil [] = done
Sub-nil (u ∷ us) = skip u (Sub-nil us)

Every-skip :
    (n : ℕ) (u : Tile) (us : List Tile) (tss : List (List Tile))
    → Every (Choice n us) tss
    → Every (Choice n (u ∷ us)) tss
Every-skip n u us [] every_nil = every_nil
Every-skip n u us (ts ∷ tss) (every_cons c cs) =
    every_cons (record { size = c.size; sub = skip u c.sub }) (Every-skip n u us tss cs)

Every-keep :
    (n : ℕ) (u : Tile) (us : List Tile) (tss : List (List Tile))
    → Every (Choice n us) tss
    → Every (Choice (suc n) (u ∷ us)) (cons_each u tss)
Every-keep n u us [] every_nil = every_nil
Every-keep n u us (ts ∷ tss) (every_cons c cs) =
    every_cons (record { size = ap suc c.size; sub = keep u c.sub }) (Every-keep n u us tss cs)

singles-Choice : (us : List Tile) → Every (Choice 1 us) (singles us)
unfolding singles
singles-Choice [] = every_nil
singles-Choice (u ∷ us) =
    every_cons (record { size = refl; sub = keep u (Sub-nil us) })
      (Every-skip 1 u us _ (singles-Choice us))

pub pairs-Choice : (us : List Tile) → Every (Choice 2 us) (pairs us)
unfolding pairs
pairs-Choice [] = every_nil
pairs-Choice (u ∷ us) =
    Every-append (Every-keep 1 u us _ (singles-Choice us)) (Every-skip 2 u us _ (pairs-Choice us))

pub triples-Choice : (us : List Tile) → Every (Choice 3 us) (triples us)
unfolding triples
triples-Choice [] = every_nil
triples-Choice (u ∷ us) =
    Every-append (Every-keep 2 u us _ (pairs-Choice us)) (Every-skip 3 u us _ (triples-Choice us))

-- How many tiles of a list are this one.
abbrev pub copies : Tile → List Tile → ℕ
copies x ts = count_by (λ t. same_tile t x) ts

abbrev pub of_type : Tile → List Tile → ℕ
of_type d ts = count_by (λ t. is_same_tile t d) ts

pub Sub-copies : (x : Tile) {ts us : List Tile} → Sub ts us → copies x ts ≤ copies x us
Sub-copies x done = omega arith
Sub-copies x (keep t s) = ground (arith, Sub-copies x s)
Sub-copies x (skip t s) = ground (arith, Sub-copies x s)

matching_tiles-copies : (d x : Tile) (us : List Tile) → copies x (matching_tiles d us) ≤ copies x us
unfolding matching_tiles
matching_tiles-copies d x [] = omega arith
matching_tiles-copies d x (u ∷ us) = elim (Bool-cases (is_same_tile u d)) [
  | inl e ↦ rw e (ground (arith, matching_tiles-copies d x us))
  | inr e ↦ rw e (ground (arith, matching_tiles-copies d x us))
]

all_of_type :
    (d : Tile) (us : List Tile) → of_type d (matching_tiles d us) ≡ length (matching_tiles d us)
unfolding matching_tiles
all_of_type d [] = refl
all_of_type d (u ∷ us) = elim (Bool-cases (is_same_tile u d)) [
  | inl e ↦ rw (e, e) (ap suc (all_of_type d us))
  | inr e ↦ rw e (all_of_type d us)
]

of_type-le : (d : Tile) (us : List Tile) → of_type d us ≤ length us
of_type-le d [] = omega arith
of_type-le d (u ∷ us) = ground (arith, of_type-le d us)

Sub-of_type :
    (d : Tile) {ts us : List Tile} → Sub ts us → of_type d us ≡ length us → of_type d ts ≡ length ts
Sub-of_type d done h = refl
Sub-of_type d (keep t {ts} {us} s) h = ground (arith, Sub-of_type d s, of_type-le d us)
Sub-of_type d (skip t {ts} {us} s) h = ground (arith, Sub-of_type d s, of_type-le d us)

-- So many tiles of the hand, all of the type of the dropped one.
pub record Offer (type : OperationType) (n : ℕ) (d : Tile) (hand : List Tile) (op : PlayerOperation)
    : Type 0 where
  pub is_type : op.type ≡ type
  pub size : length op.tiles ≡ n
  pub matches : of_type d op.tiles ≡ n
  pub in_hand : (x : Tile) → copies x op.tiles ≤ copies x hand

to_operations-Offer :
    (type : OperationType) (n : ℕ) (d : Tile) (hand : List Tile) (tss : List (List Tile))
    → Every (Choice n (matching_tiles d hand)) tss
    → Every (Offer type n d hand) (to_operations type tss)
unfolding to_operations
to_operations-Offer type n d hand [] every_nil = every_nil
to_operations-Offer type n d hand (ts ∷ tss) (every_cons c cs) =
    every_cons
      (record {
        is_type = refl;
        size = c.size;
        matches = Sub-of_type d c.sub (all_of_type d hand) ∙ c.size;
        in_hand = λ x. ground (arith, Sub-copies x c.sub, matching_tiles-copies d x hand);
      })
      (to_operations-Offer type n d hand tss cs)

pub get_peng_options-Offer :
    (p : PlayerImage) (d : Tile) → Every (Offer peng 2 d p.tiles) (get_peng_options (some p) d)
unfolding get_peng_options
get_peng_options-Offer p d =
    let matching = matching_tiles d p.tiles in
    elim (Bool-cases (not (can_peng (some p) d))) [
      | inl e ↦ rw (e, get_peng_options) every_nil
      | inr e ↦ elim (Bool-cases (ltb (length matching) 2)) [
        | inl few ↦ rw (e, few, get_peng_options) every_nil
        | inr enough ↦
            rw (e, enough, get_peng_options)
              (to_operations-Offer peng 2 d p.tiles _ (pairs-Choice matching))
      ]
    ]

pub get_gang_options-Offer :
    (p : PlayerImage) (d : Tile) → Every (Offer gang 3 d p.tiles) (get_gang_options (some p) d)
unfolding get_gang_options
get_gang_options-Offer p d =
    let matching = matching_tiles d p.tiles in
    elim (Bool-cases (not (can_gang (some p) d))) [
      | inl e ↦ rw (e, get_gang_options) every_nil
      | inr e ↦ elim (Bool-cases (ltb (length matching) 3)) [
        | inl few ↦ rw (e, few, get_gang_options) every_nil
        | inr enough ↦
            rw (e, enough, get_gang_options)
              (to_operations-Offer gang 3 d p.tiles _ (triples-Choice matching))
      ]
    ]
