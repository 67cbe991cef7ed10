-- ===== src/March/Sound.antt =====
-- The calls of march/infrastructure/realtime/march_queue.go keep the hash and the queues together.
use go_mahjong.Common.{
  ℕ, ◌≡◌, inl, inr, refl, ◌∙◌, true, false, not, ◌||◌, List, [], ◌∷◌, none, some, ltb, ◌==◌,
  if◌then◌else◌, arith, Bool-cases, Option-cases,
}
use go_mahjong.Common.Maps.{String, same, same_refl, is_some, among}
use go_mahjong.March.{
  Redis, get_queue_key, is_empty, join_queue_script, join_queue, take_out, pop_players_script,
  pop_players, remove_from_queue_script, remove_from_queue,
}
use go_mahjong.March.Queues.{
  pool_of, waits, IsQueued, without, pool_of-without, without-IsQueued, entered, pool_of-entered,
  entered-IsQueued,
}

module _ {F S : Type 0} (redis : Redis F S) where
  -- The hash and the queues agree, and no pool has an empty name.
  pub record IsSound (s : S) : Type 0 where
    pub queued : IsQueued redis s
    pub named : (user pool : String) → pool_of redis s user ≡ some pool → is_empty pool ≡ false

  own_pool :
      (s : S) (pool u : String)
      → IsQueued redis s
      → waits redis s pool u ≡ true
      → (q : String) → pool_of redis s u ≡ some q
      → same q pool ≡ true
  own_pool s pool u queued e q e' = ground (arith, queued u pool, e')

  without-IsSound :
      (s : S) (pool user : String)
      → IsSound s
      → ((q : String) → pool_of redis s user ≡ some q → same q pool ≡ true)
      → IsSound (without redis s (get_queue_key pool) user)
  without-IsSound s pool user sound own = record {
    queued = without-IsQueued redis s pool user sound.queued own;
    named = λ u p e.
        sound.named u p (ground (arith, pool_of-without redis s (get_queue_key pool) user u));
  }

  entered-IsSound :
      (s : S) (pool user : String) (score : F)
      → IsSound s
      → is_empty pool ≡ false
      → ((q : String) → pool_of redis s user ≡ some q → same q pool ≡ true)
      → IsSound (entered redis s pool user score)
  entered-IsSound s pool user score sound name own = record {
    queued = entered-IsQueued redis s pool user score sound.queued own;
    named = λ u p e. elim (Bool-cases (same user u)) [
      | inl here ↦ ground (arith, name, pool_of-entered redis s pool user u score)
      | inr other ↦ sound.named u p (ground (arith, pool_of-entered redis s pool user u score))
    ];
  }

  script-IsSound :
      (s : S) (pool user : String) (score : F)
      → IsSound s
      → is_empty pool ≡ false
      → IsSound (join_queue_script redis s (get_queue_key pool) user score pool).0
  unfolding join_queue_script
  script-IsSound s pool user score sound name = elim (Option-cases (pool_of redis s user)) [
    | inl e ↦
        rw (e, join_queue_script)
          (entered-IsSound s pool user score sound name (λ q e'. cc (e, e')))
    | inr (p, e) ↦
        let known = sound.named user p e in
        elim (Bool-cases (same p pool)) [
          | inr other ↦ rw (e, known, other, join_queue_script) sound
          | inl mine ↦ elim (Bool-cases (is_some (redis.zscore s (get_queue_key pool) user))) [
            | inl there ↦ rw (e, known, mine, there, join_queue_script) sound
            | inr gone ↦
                rw (e, known, mine, gone, join_queue_script)
                  (entered-IsSound s pool user score sound name
                    (λ q e'. ground (arith, mine, e, e')))
          ]
        ]
  ]

  pub join_queue-IsSound :
      (s : S) (pool user : String) (score : F)
      → IsSound s
      → IsSound (join_queue redis s pool user score).0
  unfolding join_queue
  join_queue-IsSound s pool user score sound = elim (Bool-cases (is_empty pool || is_empty user)) [
    | inl blank ↦ rw (blank, join_queue) sound
    | inr filled ↦ elim (Bool-cases (redis.reachable s)) [
      | inr down ↦ rw (filled, down, join_queue) sound
      | inl up ↦ rw (filled, up, join_queue) (script-IsSound s pool user score sound (ground arith))
    ]
  ]

  -- Taking some users out of a queue in which each of them is, if anywhere.
  take_out-IsSound :
      (us : List String) (pool : String) (s : S)
      → IsSound s
      → ((u q : String) → among u us ≡ true → pool_of redis s u ≡ some q → same q pool ≡ true)
      → IsSound (take_out redis (get_queue_key pool) us s)
  unfolding take_out
  take_out-IsSound [] pool s sound own = sound
  take_out-IsSound (v ∷ us) pool s sound own =
      let front : among v (v ∷ us) ≡ true = unfold among in ground (arith, same_refl v) in
      take_out-IsSound us pool _ (without-IsSound s pool v sound (λ q. own v q front)) (λ u q h e.
        own u q (unfold among in ground (arith, h))
          (ground (arith, pool_of-without redis s (get_queue_key pool) v u)))

  pub pool_of-take_out :
      (us : List String) (key : String) (s : S) (u : String)
      → pool_of redis (take_out redis key us s) u ≡ (if among u us then none else pool_of redis s u)
  unfolding take_out among
  pool_of-take_out [] key s u = refl
  pool_of-take_out (v ∷ us) key s u =
      pool_of-take_out us key _ u ∙ ground (arith, pool_of-without redis s key v u)

  pub members_own :
      (s : S) (pool : String) (n : ℕ) (u q : String)
      → IsSound s
      → among u (redis.zrange s (get_queue_key pool) n) ≡ true
      → pool_of redis s u ≡ some q
      → same q pool ≡ true
  members_own s pool n u q sound h e =
      own_pool s pool u sound.queued (redis.zrange-members s (get_queue_key pool) n u h) q e

  pub pop_players-IsSound :
      (s : S) (pool : String) (count : ℕ) → IsSound s → IsSound (pop_players redis s pool count).0
  unfolding pop_players pop_players_script
  pop_players-IsSound s pool count sound = elim (Bool-cases (count == 0)) [
    | inl e ↦ rw e sound
    | inr e ↦ elim (Bool-cases (is_empty pool || not (redis.reachable s))) [
      | inl e' ↦ rw (e, e') sound
      | inr e' ↦ elim (Bool-cases (ltb (redis.zcard s (get_queue_key pool)) count)) [
        | inl few ↦ rw (e, e', few) sound
        | inr many ↦
            rw (e, e', many)
              (take_out-IsSound (redis.zrange s (get_queue_key pool) count) pool s sound
                (λ u q h e''. members_own s pool count u q sound h e''))
      ]
    ]
  ]

  remove_script-IsSound :
      (s : S) (user : String) → IsSound s → IsSound (remove_from_queue_script redis s user).0
  unfolding remove_from_queue_script get_queue_key
  remove_script-IsSound s user sound = elim (Option-cases (pool_of redis s user)) [
    | inl e ↦ rw (e, remove_from_queue_script) sound
    | inr (pool, e) ↦
        rw (e, sound.named user pool e, remove_from_queue_script)
          (without-IsSound s pool user sound (λ q e'. ground (arith, e, e', same_refl pool)))
  ]

  pub remove_from_queue-IsSound :
      (s : S) (user : String) → IsSound s → IsSound (remove_from_queue redis s user).0
  unfolding remove_from_queue
  remove_from_queue-IsSound s user sound =
      elim (Bool-cases (is_empty user || not (redis.reachable s))) [
        | inl e ↦ rw e sound
        | inr e ↦ rw e (remove_script-IsSound s user sound)
      ]
