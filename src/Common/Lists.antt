-- ===== src/Common/Lists.antt =====
-- Lists measured and indexed by native numbers.
use Prim.Native.Nat.{ℕ, zero, suc, ◌+◌, ◌-◌, ◌<◌, ◌≤◌, min}
use mathlib.Core.Path.{◌≡◌, refl, ap, ap₂, ◌∙◌}
use mathlib.Core.Logic.{∥∥₁_elim}
use mathlib.Core.List.{List, [], ◌∷◌, ◌++◌, Perm, Permᴰ}
use native.Mathlib.Nat.{ℕ_set, suc-add}
use mathlib.Core.Bool.{Bool}
use mathlib.Core.Option.{Option, none, some}
use native.Mathlib.Omega.{arith}
use go_mahjong.Common.Tests.{ltb, ◌==◌, if◌then◌else◌}

module _ {ℓ} {A : Type ℓ} where
  abbrev pub length : List A → ℕ
  length [] = 0
  length (x ∷ xs) = suc (length xs)

  abbrev pub get_elem? : List A → ℕ → Option A
  get_elem? [] i = none
  get_elem? (x ∷ xs) zero = some x
  get_elem? (x ∷ xs) (suc i) = get_elem? xs i

  abbrev pub get_or : List A → ℕ → A → A
  get_or [] i d = d
  get_or (x ∷ xs) zero d = x
  get_or (x ∷ xs) (suc i) d = get_or xs i d

  -- A write out of bounds changes nothing.
  abbrev pub set : List A → ℕ → A → List A
  set [] i v = []
  set (x ∷ xs) zero v = v ∷ xs
  set (x ∷ xs) (suc i) v = x ∷ set xs i v

  abbrev pub take : ℕ → List A → List A
  take zero xs = []
  take (suc n) [] = []
  take (suc n) (x ∷ xs) = x ∷ take n xs

  abbrev pub drop : ℕ → List A → List A
  drop zero xs = xs
  drop (suc n) [] = []
  drop (suc n) (x ∷ xs) = drop n xs

  abbrev pub replicate : ℕ → A → List A
  replicate zero a = []
  replicate (suc n) a = a ∷ replicate n a

  -- The last element.
  abbrev pub last? : List A → Option A
  last? [] = none
  last? (x ∷ []) = some x
  last? (x ∷ y ∷ xs) = last? (y ∷ xs)

  -- All but the last element.
  abbrev pub init : List A → List A
  init [] = []
  init (x ∷ []) = []
  init (x ∷ y ∷ xs) = x ∷ init (y ∷ xs)

  pub length-append : (xs ys : List A) → length (xs ++ ys) ≡ length xs + length ys
  length-append [] ys = omega arith
  length-append (x ∷ xs) ys = omega (arith, length-append xs ys)

  pub length-set : (xs : List A) (i : ℕ) (v : A) → length (set xs i v) ≡ length xs
  length-set [] i v = refl
  length-set (x ∷ xs) zero v = refl
  length-set (x ∷ xs) (suc i) v = ap suc (length-set xs i v)

  pub get_or-set :
      (xs : List A) (i j : ℕ) (v d : A)
      → i < length xs
      → get_or (set xs i v) j d ≡ (if i == j then v else get_or xs j d)
  get_or-set [] i j v d h = elim h [ ]
  get_or-set (x ∷ xs) zero zero v d h = refl
  get_or-set (x ∷ xs) zero (suc j) v d h = ground arith
  get_or-set (x ∷ xs) (suc i) zero v d h = ground arith
  get_or-set (x ∷ xs) (suc i) (suc j) v d h = ground (arith, get_or-set xs i j v d)

  -- The same with the write out of range included.
  pub get_or-set_any :
      (xs : List A) (i j : ℕ) (v d : A)
      → get_or (set xs i v) j d
        ≡ (if i == j then (if ltb i (length xs) then v else d) else get_or xs j d)
  get_or-set_any [] i j v d = ground arith
  get_or-set_any (x ∷ xs) zero zero v d = ground arith
  get_or-set_any (x ∷ xs) zero (suc j) v d = ground arith
  get_or-set_any (x ∷ xs) (suc i) zero v d = ground arith
  get_or-set_any (x ∷ xs) (suc i) (suc j) v d = ground (arith, get_or-set_any xs i j v d)

  pub take-append-drop : (n : ℕ) (xs : List A) → take n xs ++ drop n xs ≡ xs
  take-append-drop zero xs = refl
  take-append-drop (suc n) [] = refl
  take-append-drop (suc n) (x ∷ xs) = ap (◌∷◌ x) (take-append-drop n xs)

  pub length-take : (n : ℕ) (xs : List A) → length (take n xs) ≡ min n (length xs)
  length-take zero xs = omega arith
  length-take (suc n) [] = omega arith
  length-take (suc n) (x ∷ xs) = omega (arith, length-take n xs)

  pub length-drop : (n : ℕ) (xs : List A) → length (drop n xs) ≡ length xs - n
  length-drop zero xs = omega arith
  length-drop (suc n) [] = omega arith
  length-drop (suc n) (x ∷ xs) = omega (arith, length-drop n xs)

  pub take_all : (n : ℕ) (xs : List A) → length xs ≤ n → take n xs ≡ xs
  take_all zero [] h = refl
  take_all zero (x ∷ xs) h = absurd (omega arith)
  take_all (suc n) [] h = refl
  take_all (suc n) (x ∷ xs) h = ap (◌∷◌ x) (take_all n xs (omega arith))

  drop-nil : (n : ℕ) → drop n [] ≡ []
  drop-nil zero = refl
  drop-nil (suc n) = refl

  pub drop-drop : (m n : ℕ) (xs : List A) → drop m (drop n xs) ≡ drop (n + m) xs
  drop-drop m zero xs = ground arith
  drop-drop m (suc n) [] = rw (drop-nil m, drop-nil (suc n + m))
  drop-drop m (suc n) (x ∷ xs) = rw suc-add (drop-drop m n xs)

-- How many entries pass a test.
abbrev pub count_by {ℓ} : {A : Type ℓ} → (A → Bool) → List A → ℕ
count_by p [] = 0
count_by p (x ∷ xs) = if p x then suc (count_by p xs) else count_by p xs

pub count_by-append {ℓ} :
    {A : Type ℓ} (p : A → Bool) (xs ys : List A)
    → count_by p (xs ++ ys) ≡ count_by p xs + count_by p ys
count_by-append p [] ys = omega arith
count_by-append p (x ∷ xs) ys = ground (arith, count_by-append p xs ys)

module _ {ℓ} {A : Type ℓ} where
  -- Reading on past an index splits off the entry there.
  pub drop-get_or :
      (xs : List A) (i : ℕ) (d : A) → i < length xs → drop i xs ≡ get_or xs i d ∷ drop (i + 1) xs
  drop-get_or [] i d h = elim h [ ]
  drop-get_or (x ∷ xs) zero d h = refl
  drop-get_or (x ∷ xs) (suc i) d h = ground (arith, drop-get_or xs i d)

  count_by-permᴰ : (p : A → Bool) {xs ys : List A} → Permᴰ xs ys → count_by p xs ≡ count_by p ys
  count_by-permᴰ p Permᴰ.nil = refl
  count_by-permᴰ p (Permᴰ.cons x q) = ground (arith, count_by-permᴰ p q)
  count_by-permᴰ p (Permᴰ.swap x y) = ground arith
  count_by-permᴰ p (Permᴰ.trans q r) = count_by-permᴰ p q ∙ count_by-permᴰ p r

  -- A reordering keeps every count.
  pub count_by-perm : (p : A → Bool) {xs ys : List A} → Perm xs ys → count_by p xs ≡ count_by p ys
  count_by-perm p q = ∥∥₁_elim q (ℕ_set _ _) (count_by-permᴰ p)

  length-permᴰ : {xs ys : List A} → Permᴰ xs ys → length xs ≡ length ys
  length-permᴰ Permᴰ.nil = refl
  length-permᴰ (Permᴰ.cons x q) = ap suc (length-permᴰ q)
  length-permᴰ (Permᴰ.swap x y) = refl
  length-permᴰ (Permᴰ.trans q r) = length-permᴰ q ∙ length-permᴰ r

  pub length-perm : {xs ys : List A} → Perm xs ys → length xs ≡ length ys
  length-perm q = ∥∥₁_elim q (ℕ_set _ _) length-permᴰ

-- Two lists of numbers of one length with the same entries.
pub list_ext :
    (xs ys : List ℕ)
    → length xs ≡ length ys
    → ((k : ℕ) → k < length xs → get_or xs k 0 ≡ get_or ys k 0)
    → xs ≡ ys
list_ext [] [] e h = refl
list_ext [] (y ∷ ys) e h = absurd (omega arith)
list_ext (x ∷ xs) [] e h = absurd (omega arith)
list_ext (x ∷ xs) (y ∷ ys) e h =
    ap₂ ◌∷◌ (h 0 (omega arith)) (list_ext xs ys (omega arith) (λ k p. h (suc k) (omega arith)))
