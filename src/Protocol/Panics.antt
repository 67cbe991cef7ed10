-- ===== src/Protocol/Panics.antt =====
-- Which packets make `Decode` of protocal.go panic.
use go_mahjong.Common.{
  ℕ, ◌+◌, ◌*◌, ◌/◌, ◌%◌, ◌≡◌, refl, ◌∙◌, Bool, true, false, ◌&&◌, List, [], ◌∷◌, ◌++◌, Option, none,
  some, arith, ltb, leb, ◌==◌, if◌then◌else◌, Bool-cases, Option-cases, inl, inr, length,
  length-append, drop,
}
use go_mahjong.Protocol.{
  Dictionary, Message, Outcome, ok, err, panic, ◌>>=◌, is_panic, message_has_id, message_has_route,
  message_decode, decode_id, after_id, decode_route, compressed_route, plain_route, decode_payload,
  get_route, push,
}
use go_mahjong.Protocol.Frames.{Codecs, decode, packet_type, data_package}
use go_mahjong.Protocol.Packets.{is_panic-decode}

-- What follows an id: the bytes behind the first that is below 128, or all of them.
abbrev pub behind_id : List ℕ → Option (List ℕ)
behind_id [] = none
behind_id (b ∷ bs) = let rest = behind_id bs in if ltb b 128 then some bs else rest

-- A route has two bytes if it is compressed, or else a length and as many bytes.
abbrev pub is_short : ℕ → List ℕ → Bool
is_short flag [] = true
is_short flag (n ∷ bs) = if flag % 2 == 1 then length bs == 0 else ltb (length bs) n

-- A message without a flag, or of a type with a route that is cut off.
abbrev pub is_truncated : List ℕ → Bool
is_truncated [] = true
is_truncated (flag ∷ body) =
    let t = flag / 2 % 8 in
    message_has_route t
    && is_short flag (if message_has_id t then after_id body (behind_id body) else body)

decode_id-behind_id : (bs : List ℕ) (shift id : ℕ) → (decode_id bs shift id).1 ≡ behind_id bs
unfolding decode_id
decode_id-behind_id [] shift id = refl
decode_id-behind_id (b ∷ bs) shift id = elim (Bool-cases (ltb b 128)) [
  | inl last ↦ rw last refl
  | inr more ↦ rw more (decode_id-behind_id bs _ _)
]

compressed_panics :
    (d : Dictionary) (bs : List ℕ) (flag : ℕ)
    → (flag % 2 == 1) ≡ true
    → is_panic (compressed_route d [] bs (bs ++ [])) ≡ is_short flag bs
unfolding compressed_route
compressed_panics d [] flag e = refl
compressed_panics d (a ∷ []) flag e = rw e refl
compressed_panics d (a ∷ b ∷ more) flag e = elim (Option-cases (get_route (a * 256 + b) d.codes)) [
  | inl e' ↦ rw (e, e', compressed_route) (ground arith)
  | inr (r, e') ↦ rw (e, e', compressed_route) (ground arith)
]

plain_panics :
    (bs : List ℕ) (flag : ℕ)
    → (flag % 2 == 1) ≡ false
    → is_panic (plain_route [] bs) ≡ is_short flag bs
unfolding plain_route
plain_panics [] flag e = refl
plain_panics (n ∷ bs) flag e = ground (arith, length-append {0} bs [])

route_panics :
    (d : Dictionary) (t flag : ℕ) (bs : List ℕ)
    → is_panic (decode_route d [] t flag bs) ≡ message_has_route t && is_short flag bs
unfolding decode_route
route_panics d t flag bs = elim (Bool-cases (message_has_route t)) [
  | inr without ↦ rw without refl
  | inl has ↦ elim (Bool-cases (flag % 2 == 1)) [
    | inl e ↦ rw (has, e) (compressed_panics d bs flag e)
    | inr e ↦ rw (has, e) (plain_panics bs flag e)
  ]
]

payload_returns :
    (inflate : List ℕ → Option (List ℕ)) (flag : ℕ) (bs : List ℕ) (f : List ℕ → Message)
    → is_panic (decode_payload inflate flag bs >>= λ (p : List ℕ). ok (f p)) ≡ false
unfolding decode_payload
payload_returns inflate flag bs f = elim (Bool-cases (flag / 16 % 2 == 1)) [
  | inr plain ↦ rw plain refl
  | inl packed ↦ elim (Option-cases (inflate bs)) [
    | inl e ↦ rw (packed, e, decode_payload) refl
    | inr (out, e) ↦ rw (packed, e, decode_payload) refl
  ]
]

-- A result that is used without a panic panics if it does.
bind_panics {ℓ κ} :
    {A : Type ℓ} {B : Type κ} (x : Outcome A) (f : A → Outcome B)
    → ((a : A) → is_panic (f a) ≡ false)
    → is_panic (x >>= f) ≡ is_panic x
bind_panics (ok a) f h = h a
bind_panics (err e) f h = refl
bind_panics panic f h = refl

message_panics :
    (inflate : List ℕ → Option (List ℕ)) (d : Dictionary) (body : List ℕ)
    → is_panic (message_decode inflate d [] body) ≡ is_truncated body
unfolding message_decode
message_panics inflate d [] = refl
message_panics inflate d (flag ∷ body) = elim (Bool-cases (ltb push (flag / 2 % 8))) [
  | inl wrong ↦
      let without : message_has_route (flag / 2 % 8) ≡ false = ground arith in
      rw (wrong, without) refl
  | inr right ↦
      rw (right, decode_id-behind_id body 0 0)
        (bind_panics (decode_route d [] _ flag _) _ (λ r. payload_returns inflate flag r.1 _)
          ∙ route_panics d _ flag _)
]

-- Where nothing lies behind a packet in its array, Decode panics exactly on the data packets of
-- at least four bytes whose message is empty, or is of a type with a route and ends before its
-- route does: behind its id, if it has one, fewer than two bytes of a compressed route, or fewer
-- bytes of a plain one than its length says. Nothing else, JSON, zlib or the dictionary
-- included, makes it panic.
pub is_panic-decode_truncated :
    (c : Codecs) (d : Dictionary) (payload : List ℕ)
    → is_panic (decode c d [] payload)
      ≡ leb 4 (length payload)
        && packet_type payload == data_package
        && is_truncated (drop 4 payload)
is_panic-decode_truncated c d payload =
    is_panic-decode c d [] payload ∙ rw (message_panics c.inflate d (drop 4 payload)) refl
