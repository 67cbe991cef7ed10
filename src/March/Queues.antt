-- ===== src/March/Queues.antt =====
-- The hash of users and the queues of march/infrastructure/realtime/march_queue.go say the same.
use text.Mathlib.TextLemmas.{append_cancel_left}
use go_mahjong.Common.{
  ◌≡◌, inl, inr, refl, ap, ◌∙◌, Bool, true, false, ◌&&◌, Option, none, some, if◌then◌else◌, arith,
  Option-cases,
}
use go_mahjong.Common.Maps.{String, same, same_iff, same_refl, is_some}
use go_mahjong.March.{Redis, user_pool_key, get_queue_key}

pub get_queue_key_injective : (a b : String) → get_queue_key a ≡ get_queue_key b → a ≡ b
unfolding get_queue_key
get_queue_key_injective a b e = append_cancel_left _ a b e

pub same-get_queue_key : (a b : String) → same (get_queue_key a) (get_queue_key b) ≡ same a b
same-get_queue_key a b = ground (
  arith,
  get_queue_key_injective a b,
  same_iff a b,
  same_iff (get_queue_key a) (get_queue_key b),
  ap get_queue_key {x = a} {y = b},
)

abbrev pub is_pool : Option String → String → Bool
is_pool none pool = false
is_pool (some p) pool = same p pool

module _ {F S : Type 0} (redis : Redis F S) where
  -- The pool of a user, in the hash, and whether the user waits in a pool.
  abbrev pub pool_of : S → String → Option String
  pool_of s user = redis.hget s user_pool_key user

  abbrev pub waits : S → String → String → Bool
  waits s pool user = is_some (redis.zscore s (get_queue_key pool) user)

  -- A user waits in the pool of the hash, and in no other.
  abbrev pub IsQueued : S → Type 0
  IsQueued s = (user pool : String) → waits s pool user ≡ is_pool (pool_of s user) pool

  -- A user is taken out of a queue and of the hash.
  abbrev pub without : S → String → String → S
  without s key user = redis.hdel (redis.zrem s key user) user_pool_key user

  pub pool_of-without :
      (s : S) (key user u : String)
      → pool_of (without s key user) u ≡ (if same user u then none else pool_of s u)
  pool_of-without s key user u =
      redis.hget-hdel (redis.zrem s key user) user_pool_key user user_pool_key u
      ∙ ground (arith, redis.hget-zrem s key user user_pool_key u, same_refl user_pool_key)

  pub waits-without :
      (s : S) (pool user p u : String)
      → waits (without s (get_queue_key pool) user) p u
        ≡ (if same pool p && same user u then false else waits s p u)
  waits-without s pool user p u =
      ap is_some (
        redis.zscore-hdel _ user_pool_key user (get_queue_key p) u
        ∙ redis.zscore-zrem s (get_queue_key pool) user (get_queue_key p) u)
      ∙ ground (arith, same-get_queue_key pool p)

  -- A user who can only be in one pool is in no other.
  elsewhere :
      (s : S) (pool user u p : String)
      → ((q : String) → pool_of s user ≡ some q → same q pool ≡ true)
      → same user u ≡ true
      → same pool p ≡ false
      → is_pool (pool_of s u) p ≡ false
  elsewhere s pool user u p own e apart = elim (Option-cases (pool_of s u)) [
    | inl e' ↦ rw e' refl
    | inr (q, e') ↦
        let mine = own q (ap (pool_of s) ((same_iff user u).0 e) ∙ e') in
        rw e' (ground (arith, mine, apart, same_iff q pool, same_iff q p, same_iff pool p))
  ]

  pub without-IsQueued :
      (s : S) (pool user : String)
      → IsQueued s
      → ((q : String) → pool_of s user ≡ some q → same q pool ≡ true)
      → IsQueued (without s (get_queue_key pool) user)
  without-IsQueued s pool user queued own u p =
      waits-without s pool user p u
      ∙ ground (
        arith,
        queued u p,
        same_iff user u,
        ap (λ (o : Option String). is_pool o p) (pool_of-without s (get_queue_key pool) user u),
        elsewhere s pool user u p own,
      )

  -- A user enters a queue and the hash.
  abbrev pub entered : S → String → String → F → S
  entered s pool user score =
      redis.hset (redis.zadd s (get_queue_key pool) score user) user_pool_key user pool

  pub pool_of-entered :
      (s : S) (pool user u : String) (score : F)
      → pool_of (entered s pool user score) u ≡ (if same user u then some pool else pool_of s u)
  pool_of-entered s pool user u score =
      redis.hget-hset (redis.zadd s (get_queue_key pool) score user) user_pool_key user pool
        user_pool_key u
      ∙ ground (
        arith,
        redis.hget-zadd s (get_queue_key pool) score user user_pool_key u,
        same_refl user_pool_key,
      )

  pub waits-entered :
      (s : S) (pool user p u : String) (score : F)
      → waits (entered s pool user score) p u
        ≡ (if same pool p && same user u then true else waits s p u)
  waits-entered s pool user p u score =
      ap is_some (
        redis.zscore-hset _ user_pool_key user pool (get_queue_key p) u
        ∙ redis.zscore-zadd s (get_queue_key pool) score user (get_queue_key p) u)
      ∙ ground (arith, same-get_queue_key pool p)

  pub entered-IsQueued :
      (s : S) (pool user : String) (score : F)
      → IsQueued s
      → ((q : String) → pool_of s user ≡ some q → same q pool ≡ true)
      → IsQueued (entered s pool user score)
  entered-IsQueued s pool user score queued own u p =
      waits-entered s pool user p u score
      ∙ ground (
        arith,
        queued u p,
        same_iff user u,
        ap (pool_of s) {x = user} {y = u},
        ap (λ (o : Option String). is_pool o p) (pool_of-entered s pool user u score),
        elsewhere s pool user u p own,
      )
