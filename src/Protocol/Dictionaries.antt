-- ===== src/Protocol/Dictionaries.antt =====
-- The dictionary of routes: its two maps are inverse to one another.
use go_mahjong.Common.{
  ℕ, ◌≡◌, ◌↔◌, refl, true, List, [], ◌∷◌, none, some, arith, ◌==◌, Bool-cases, Option-cases, inl,
  inr,
}
use go_mahjong.Protocol.{Dictionary, same_bytes, get_code, get_route, set_dictionary}

pub same_bytes_eq : (xs ys : List ℕ) → same_bytes xs ys ≡ true → xs ≡ ys
same_bytes_eq [] [] h = refl
same_bytes_eq (x ∷ xs) (y ∷ ys) h = ground (arith, same_bytes_eq xs ys)
same_bytes_eq [] (y ∷ ys) h = cc
same_bytes_eq (x ∷ xs) [] h = cc

pub same_bytes_refl : (xs : List ℕ) → same_bytes xs xs ≡ true
same_bytes_refl [] = refl
same_bytes_refl (x ∷ xs) = ground (arith, same_bytes_refl xs)

-- A route has a code exactly if the code has the route.
abbrev pub IsConsistent : Dictionary → Type 0
IsConsistent d =
    (r : List ℕ) (c : ℕ) → (get_code r d.routes ≡ some c) ↔ (get_route c d.codes ≡ some r)

module _ (d : Dictionary) (r : List ℕ) (c : ℕ) (new_route : get_code r d.routes ≡ none)
    (new_code : get_route c d.codes ≡ none) (old : IsConsistent d) where
  enter_forth :
      (s : List ℕ) (e : ℕ)
      → get_code s ((r, c) ∷ d.routes) ≡ some e
      → get_route e ((c, r) ∷ d.codes) ≡ some s
  unfolding get_code get_route
  enter_forth s e h = elim (Bool-cases (same_bytes r s)) [
    | inl same ↦ ground (arith, same_bytes_eq r s same)
    | inr other ↦ ground (arith, (old s e).0, new_code)
  ]

  enter_back :
      (s : List ℕ) (e : ℕ)
      → get_route e ((c, r) ∷ d.codes) ≡ some s
      → get_code s ((r, c) ∷ d.routes) ≡ some e
  unfolding get_code get_route
  enter_back s e h = elim (Bool-cases (c == e)) [
    | inl same ↦ ground (arith, same_bytes_refl r)
    | inr other ↦ elim (Bool-cases (same_bytes r s)) [
      | inl same ↦ ground (arith, same_bytes_eq r s same, (old s e).1, new_route)
      | inr new ↦ ground (arith, (old s e).1)
    ]
  ]

-- SetDictionary keeps the two maps inverse to one another, also where it stops at a route or a
-- code that is there already.
pub set_dictionary-IsConsistent :
    (trim : List ℕ → List ℕ) (es : List (List ℕ × ℕ)) (d : Dictionary)
    → IsConsistent d
    → IsConsistent (set_dictionary trim es d)
unfolding set_dictionary
set_dictionary-IsConsistent trim [] d old = old
set_dictionary-IsConsistent trim ((route, code) ∷ es) d old =
    elim (Option-cases (get_code (trim route) d.routes)) [
      | inr (c, e) ↦ rw (e, set_dictionary) old
      | inl new_route ↦ elim (Option-cases (get_route code d.codes)) [
        | inr (s, e) ↦ rw (new_route, e, set_dictionary) old
        | inl new_code ↦
            rw (new_route, new_code, set_dictionary)
              (set_dictionary-IsConsistent trim es _ (λ s e. (
                enter_forth d (trim route) code new_route new_code old s e,
                enter_back d (trim route) code new_route new_code old s e,
              )))
      ]
    ]
