-- ===== src/Examples/Lobby.antt =====
-- A store of queues in memory, a room manager, and calls of them.
use Prim.Native.String.{String}
use go_mahjong.Common.{
  ℕ, zero, suc, ◌≡◌, refl, sym, ap, ◌∙◌, true, ◌&&◌, List, [], ◌∷◌, none, some, arith, leb,
  if◌then◌else◌, length, take, length-take, Bool-cases, inl, inr,
}
use go_mahjong.Common.Maps.{
  Map, same, same_iff, among, AreDistinct, get, put, remove, keys, get-put, get-remove, among-keys,
}
use go_mahjong.March.{Redis}

pub record Store : Type 0 where
  pub hash : String → Map String
  pub sets : String → Map ℕ

pub among-take :
    (n : ℕ) (u : String) (us : List String) → among u (take n us) ≡ true → among u us ≡ true
unfolding among
among-take zero u us h = cc
among-take (suc n) u [] h = h
among-take (suc n) u (v ∷ us) h = ground (arith, among-take n u us)

-- The members of a set, each once.
unfoldable pub once : List String → List String
once [] = []
once (u ∷ us) = let rest = once us in if among u us then rest else u ∷ rest

pub among-once : (u : String) (us : List String) → among u (once us) ≡ among u us
unfolding once among
among-once u [] = refl
among-once u (v ∷ us) = elim (Bool-cases (among v us)) [
  | inl there ↦ rw there (
      ground (
        arith,
        among-once u us,
        there,
        same_iff v u,
        ap (λ (w : String). among w us) {x = v} {y = u},
      ))
  | inr new ↦ rw new (ground (arith, among-once u us))
]

pub once-AreDistinct : (us : List String) → AreDistinct (once us)
unfolding once
once-AreDistinct [] = tt
once-AreDistinct (u ∷ us) = elim (Bool-cases (among u us)) [
  | inl there ↦ rw there (once-AreDistinct us)
  | inr new ↦ rw new (among-once u us ∙ new, once-AreDistinct us)
]

pub take-AreDistinct : (n : ℕ) (us : List String) → AreDistinct us → AreDistinct (take n us)
take-AreDistinct zero us d = tt
take-AreDistinct (suc n) [] d = tt
take-AreDistinct (suc n) (u ∷ us) (new, d) = (
  elim (Bool-cases (among u (take n us))) [
    | inl there ↦ absurd (ground (arith, among-take n u us there, new))
    | inr e ↦ e
  ],
  take-AreDistinct n us d,
)

-- A map at one key is changed.
abbrev pub change : {V : Type 0} → String → Map V → (String → Map V) → String → Map V
change k m f k' = if same k k' then m else f k'

pub changed :
    {V : Type 0} (k k' u : String) (m : Map V) (f : String → Map V)
    → get u (change k m f k') ≡ (if same k k' then get u m else get u (f k'))
changed k k' u m f = elim (Bool-cases (same k k')) [ inl e ↦ rw e refl | inr e ↦ rw e refl ]

pub same_key :
    {V : Type 0} (f : String → Map V) (k k' u : String)
    → same k k' ≡ true
    → get u (f k) ≡ get u (f k')
same_key f k k' u e = ap (λ (j : String). get u (f j)) ((same_iff k k').0 e)

pub change-put :
    {V : Type 0} (f : String → Map V) (k m : String) (v : V) (k' m' : String)
    → get m' (change k (put m v (f k)) f k')
      ≡ (if same k k' && same m m' then some v else get m' (f k'))
change-put f k m v k' m' =
    changed k k' m' (put m v (f k)) f ∙ ground (arith, get-put m m' v (f k), same_key f k k' m')

pub change-remove :
    {V : Type 0} (f : String → Map V) (k m k' m' : String)
    → get m' (change k (remove m (f k)) f k')
      ≡ (if same k k' && same m m' then none else get m' (f k'))
change-remove f k m k' m' =
    changed k k' m' (remove m (f k)) f ∙ ground (arith, get-remove m m' (f k), same_key f k k' m')

pub length-first :
    (n : ℕ) (us : List String) → length (take n us) ≡ (if leb n (length us) then n else length us)
length-first n us = length-take n us ∙ ground arith

-- Redis in memory.
abbrev pub in_memory : Redis ℕ Store
in_memory = record {
  reachable = λ s. true;
  hget = λ s k f. get f (s.hash k);
  hset = λ s k f v. record s { hash = change k (put f v (s.hash k)) s.hash };
  hdel = λ s k f. record s { hash = change k (remove f (s.hash k)) s.hash };
  zadd = λ s k x m. record s { sets = change k (put m x (s.sets k)) s.sets };
  zrem = λ s k m. record s { sets = change k (remove m (s.sets k)) s.sets };
  zscore = λ s k m. get m (s.sets k);
  zcard = λ s k. length (once (keys (s.sets k)));
  zrange = λ s k n. take n (once (keys (s.sets k)));
  hget-hset = λ s k f v k' f'. change-put s.hash k f v k' f';
  hget-hdel = λ s k f k' f'. change-remove s.hash k f k' f';
  hget-zadd = λ s k x m k' f'. refl;
  hget-zrem = λ s k m k' f'. refl;
  zscore-zadd = λ s k x m k' m'. change-put s.sets k m x k' m';
  zscore-zrem = λ s k m k' m'. change-remove s.sets k m k' m';
  zscore-hset = λ s k f v k' m'. refl;
  zscore-hdel = λ s k f k' m'. refl;
  zrange-members = λ s k n m h.
      sym (among-keys m (s.sets k))
      ∙ sym (among-once m (keys (s.sets k)))
      ∙ among-take n m (once (keys (s.sets k))) h;
  zrange-distinct = λ s k n. take-AreDistinct n _ (once-AreDistinct (keys (s.sets k)));
  length-zrange = λ s k n. length-first n (once (keys (s.sets k)));
}

-- Nobody waits.
abbrev pub nobody_waits : Store
nobody_waits = record { hash = λ k. []; sets = λ k. [] }
