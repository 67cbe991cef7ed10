-- ===== src/Protocol/Ids.antt =====
-- The id of a message, in groups of seven bits.
use native.Mathlib.Nat.{div-add-mod}
use native.Mathlib.Numerals.{towards_suc}
use go_mahjong.Common.{
  ℕ, zero, suc, ◌+◌, ◌*◌, ◌/◌, ◌%◌, ◌^◌, ◌<◌, ◌≡◌, ◌≢◌, ◌∙◌, ap, List, ◌∷◌, ◌++◌, some, arith, ◌==◌,
  Bool-cases, inl, inr,
}
use go_mahjong.Protocol.{encode_id, decode_id}

-- The group that ends an id, and one that does not.
last_group :
    (b shift id : ℕ) (rest : List ℕ)
    → b < 128
    → id + b * 2 ^ shift < 2 ^ 64
    → decode_id (b ∷ rest) shift id ≡ (id + b * 2 ^ shift, some rest)
unfolding decode_id
last_group b shift id rest hb fits = ground arith

inner_group :
    (g shift id : ℕ) (rest : List ℕ)
    → g < 128
    → id + g * 2 ^ shift < 2 ^ 64
    → decode_id ((g + 128) ∷ rest) shift id ≡ decode_id rest (shift + 7) (id + g * 2 ^ shift)
unfolding decode_id
inner_group g shift id rest hg fits = ground arith

next_shift : (s : ℕ) → 2 ^ (s + 7) ≡ 128 * 2 ^ s
next_shift s = simp towards_suc (omega arith)

low_and_high : (n s : ℕ) → n * 2 ^ s ≡ n % 128 * 2 ^ s + n / 128 * 2 ^ (s + 7)
low_and_high n s = omega (
  arith,
  ap (λ (t : ℕ). t * 2 ^ s) (div-add-mod n 128),
  ap (λ (t : ℕ). n / 128 * t) (next_shift s),
)

next_bound : (k : ℕ) → 128 ^ suc k ≡ 128 * 128 ^ k
next_bound k = omega arith

one_group : (k n : ℕ) → n / 128 ≢ 0 → encode_id (suc k) n ≡ (n % 128 + 128) ∷ encode_id k (n / 128)
unfolding encode_id
one_group k n h = ground arith

-- Reading the id that was written adds it, at its place, and stops right behind it.
pub decode_id-encode_id :
    (k n shift id : ℕ) (rest : List ℕ)
    → n < 128 ^ suc k
    → id + n * 2 ^ shift < 2 ^ 64
    → decode_id (encode_id (suc k) n ++ rest) shift id ≡ (id + n * 2 ^ shift, some rest)
decode_id-encode_id zero n shift id rest h fits =
    unfold encode_id in ground (arith, last_group (n % 128) shift id rest, low_and_high n shift)
decode_id-encode_id (suc k) n shift id rest h fits = elim (Bool-cases (n / 128 == 0)) [
  | inl e ↦
      unfold encode_id in ground (arith, last_group (n % 128) shift id rest, low_and_high n shift)
  | inr e ↦ rw (one_group (suc k) n (ground arith)) (
      inner_group (n % 128) shift id (encode_id (suc k) (n / 128) ++ rest) (omega arith)
        (omega (arith, low_and_high n shift))
      ∙ decode_id-encode_id k (n / 128) (shift + 7) (id + n % 128 * 2 ^ shift) rest
          (omega (arith, next_bound (suc k))) (omega (arith, low_and_high n shift))
      ∙ ap (λ (t : ℕ). (t, some rest)) (omega (arith, low_and_high n shift)))
]
