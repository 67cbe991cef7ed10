-- ===== src/Search/Cache/Seek.antt =====
-- The loop of `SeekCandidates` of searcher.go, and which candidates it finds.
use mathlib.Core.List.{Memᴰ}
use go_mahjong.Common.{
  ℕ, zero, suc, ◌+◌, ◌≤◌, ◌<◌, ◌≡◌, ◌↔◌, ◌⊎◌, inl, inr, refl, ◌∙◌, ap, subst, List, [], ◌∷◌, ◌++◌,
  Option, arith, ◌==◌, if◌then◌else◌, length, Bool-cases,
}
use go_mahjong.Common.Int.{ℤ}
use go_mahjong.Tiles.{Tile, TileType}
use go_mahjong.Search.{Hand34, count_at, sub_at}
use go_mahjong.Search.Counts.{length-sub_at}
use go_mahjong.Search.Cache.{Searcher, Candidate, add_candidate, seek_step, seek_loop}
use go_mahjong.Search.Cache.Sound.{IsSound, pure_result, waits_and_ukeire_lem}

-- `SeekCandidates` with no cache.
abbrev pub pure_seek_step :
    ℕ → Hand34 → (TileType → List Tile) → ℕ → Option (List ℕ) → List Candidate → List Candidate
pure_seek_step i h14 opts n visible out =
    if count_at h14 i == 0
    then out
    else add_candidate i (opts i) (pure_result (sub_at h14 i 1) n visible) out

unfoldable pub pure_seek :
    ℕ → ℕ → Hand34 → (TileType → List Tile) → ℕ → Option (List ℕ) → List Candidate → List Candidate
pure_seek zero i h14 opts n visible out = out
pure_seek (suc k) i h14 opts n visible out =
    pure_seek k (i + 1) h14 opts n visible (pure_seek_step i h14 opts n visible out)

seek_step_lem :
    (i : ℕ) (h14 : Hand34) (opts : TileType → List Tile) (n : ℕ) (visible : Option (List ℕ))
    (s : Searcher) (out : List Candidate)
    → length h14 ≡ 34
    → n < 256
    → IsSound s
    → ((seek_step i h14 opts n visible s out).1 ≡ pure_seek_step i h14 opts n visible out)
      × IsSound (seek_step i h14 opts n visible s out).0
unfolding seek_step
seek_step_lem i h14 opts n visible s out l p c =
    let (answer, sound) =
      waits_and_ukeire_lem s (sub_at h14 i 1) n visible c (length-sub_at h14 i 1 ∙ l) p in
    elim (Bool-cases (count_at h14 i == 0)) [
      | inl missing ↦ rw missing (refl, c)
      | inr there ↦ rw there (ap (λ r. add_candidate i (opts i) r out) answer, sound)
    ]

pub seek_loop_lem :
    (k i : ℕ) (h14 : Hand34) (opts : TileType → List Tile) (n : ℕ) (visible : Option (List ℕ))
    (s : Searcher) (out : List Candidate)
    → length h14 ≡ 34
    → n < 256
    → IsSound s
    → ((seek_loop k i h14 opts n visible s out).1 ≡ pure_seek k i h14 opts n visible out)
      × IsSound (seek_loop k i h14 opts n visible s out).0
unfolding seek_loop pure_seek
seek_loop_lem zero i h14 opts n visible s out l p c = (refl, c)
seek_loop_lem (suc k) i h14 opts n visible s out l p c =
    let (answer, sound) = seek_step_lem i h14 opts n visible s out l p c in
    rw (← answer) (
      seek_loop_lem k (i + 1) h14 opts n visible (seek_step i h14 opts n visible s out).0 _ l p
        sound)

-- The candidate of a discard of type `i`.
abbrev pub candidate : Hand34 → (TileType → List Tile) → ℕ → Option (List ℕ) → ℕ → Candidate
candidate h opts n visible i = record {
  discard_type = i;
  discard_options = opts i;
  waits = (pure_result (sub_at h i 1) n visible).0;
  ukeire = (pure_result (sub_at h i 1) n visible).1;
}

-- The tile is held, and its discard leaves a wait.
abbrev pub Found : Hand34 → (TileType → List Tile) → ℕ → Option (List ℕ) → ℕ → Candidate → Type 0
Found h opts n visible i c =
    (0 < count_at h i) × (0 < length c.waits) × (c ≡ candidate h opts n visible i)

Memᴰ-append_one :
    (c d : Candidate) (cs : List Candidate) → Memᴰ c (cs ++ d ∷ []) ↔ (Memᴰ c cs ⊎ (c ≡ d))
Memᴰ-append_one c d [] = (
  λ m. elim m [ Memᴰ.head e ↦ inr e | Memᴰ.tail k ↦ inl k ],
  λ m. elim m [ inl k ↦ elim k [ ] | inr e ↦ Memᴰ.head e ],
)
Memᴰ-append_one c d (x ∷ cs) = (
  λ m. elim m [
    | Memᴰ.head e ↦ inl (Memᴰ.head e)
    | Memᴰ.tail k ↦ elim ((Memᴰ-append_one c d cs).0 k) [
      | inl old ↦ inl (Memᴰ.tail old)
      | inr e ↦ inr e
    ]
  ],
  λ m. elim m [
    | inl (Memᴰ.head e) ↦ Memᴰ.head e
    | inl (Memᴰ.tail k) ↦ Memᴰ.tail ((Memᴰ-append_one c d cs).1 (inl k))
    | inr e ↦ Memᴰ.tail ((Memᴰ-append_one c d cs).1 (inr e))
  ],
)

add_candidate_mem :
    (i : ℕ) (o : List Tile) (ws : List TileType) (k : ℤ) (out : List Candidate) (c : Candidate)
    → Memᴰ c (add_candidate i o (ws, k) out) ↔ (
        Memᴰ c out
        ⊎ ((0 < length c.waits)
            × (c ≡ record { discard_type = i; discard_options = o; waits = ws; ukeire = k })))
unfolding add_candidate
add_candidate_mem i o [] k out c = (
  λ m. inl m,
  λ m. elim m [
    | inl old ↦ old
    | inr (some, e) ↦ absurd (omega (arith, some, ap (λ (d : Candidate). length d.waits) e))
  ],
)
add_candidate_mem i o (w ∷ ws) k out c =
    let d : Candidate = record {
      discard_type = i;
      discard_options = o;
      waits = w ∷ ws;
      ukeire = k;
    } in
    (
      λ m. elim ((Memᴰ-append_one c d out).0 m) [
        | inl old ↦ inl old
        | inr e ↦ inr (ground (arith, ap (λ (x : Candidate). length x.waits) e), e)
      ],
      λ m. elim m [
        | inl old ↦ (Memᴰ-append_one c d out).1 (inl old)
        | inr (_, e) ↦ (Memᴰ-append_one c d out).1 (inr e)
      ],
    )

module _ (h : Hand34) (opts : TileType → List Tile) (n : ℕ) (visible : Option (List ℕ)) where
  -- One round finds the candidate of one type.
  pure_seek_step_mem :
      (i : ℕ) (out : List Candidate) (c : Candidate)
      → Memᴰ c (pure_seek_step i h opts n visible out) ↔ (Memᴰ c out ⊎ Found h opts n visible i c)
  pure_seek_step_mem i out c =
      let ws = (pure_result (sub_at h i 1) n visible).0 in
      let k = (pure_result (sub_at h i 1) n visible).1 in
      let add = add_candidate_mem i (opts i) ws k out c in
      elim (Bool-cases (count_at h i == 0)) [
        | inl missing ↦ rw missing (
          λ m. inl m,
          λ m. elim m [ inl old ↦ old | inr (held, _, _) ↦ absurd (ground (arith, held, missing)) ],
        )
        | inr there ↦
            let held : 0 < count_at h i = ground (arith, there) in
            rw there (
              λ m. elim (add.0 m) [ inl old ↦ inl old | inr (w, e) ↦ inr (held, w, e) ],
              λ m. elim m [ inl old ↦ add.1 (inl old) | inr (_, w, e) ↦ add.1 (inr (w, e)) ],
            )
      ]

  pub pure_seek_mem :
      (k i : ℕ) (out : List Candidate) (c : Candidate)
      → Memᴰ c (pure_seek k i h opts n visible out)
        ↔ (Memᴰ c out ⊎ ((j : ℕ) × (i ≤ j) × (j < i + k) × Found h opts n visible j c))
  unfolding pure_seek
  pure_seek_mem zero i out c =
      (λ m. inl m, λ m. elim m [ inl old ↦ old | inr (j, p, q, _) ↦ absurd (omega arith) ])
  pure_seek_mem (suc k) i out c =
      let rest = pure_seek_mem k (i + 1) (pure_seek_step i h opts n visible out) c in
      let step = pure_seek_step_mem i out c in
      (
        λ m. elim (rest.0 m) [
          | inr (j, p, q, f) ↦ inr (j, omega arith, omega arith, f)
          | inl now ↦ elim (step.0 now) [
            | inl old ↦ inl old
            | inr f ↦ inr (i, omega arith, omega arith, f)
          ]
        ],
        λ m. elim m [
          | inl old ↦ rest.1 (inl (step.1 (inl old)))
          | inr (j, p, q, f) ↦ elim (Bool-cases (i == j)) [
            | inl e ↦ rest.1 (
                inl (
                  step.1
                    (inr (subst (λ (x : ℕ). Found h opts n visible x c) (ground (arith, e)) f))))
            | inr e ↦ rest.1 (inr (j, ground (arith, e, p), omega arith, f))
          ]
        ],
      )
