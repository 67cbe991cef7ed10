-- ===== src/Protocol/RoundTrip.antt =====
-- A message that is encoded and decoded again.
use go_mahjong.Common.{
  ℕ, ◌+◌, ◌*◌, ◌/◌, ◌%◌, ◌^◌, ◌<◌, ◌≤◌, ◌≡◌, ◌∙◌, refl, ap, Bool, true, false, ◌&&◌, List, [], ◌∷◌,
  ◌++◌, Option, none, some, arith, ltb, ◌==◌, if◌then◌else◌, Bool-cases, Option-cases, inl, inr,
  length, take, drop, length-append,
}
use go_mahjong.Protocol.{
  Dictionary, Message, ok, get_code, get_route, encode_id, encode_message_flag,
  encode_message_route, is_found, message_encode, decode_id, after_id, compressed_route,
  plain_route, decode_route, decode_payload, message_decode, message_has_id, message_has_route,
  push,
}
use go_mahjong.Protocol.Ids.{decode_id-encode_id}
use go_mahjong.Protocol.Dictionaries.{IsConsistent}

-- What the other side sees of a message: the id and the route only where the type has them, and no
-- mark of an error.
unfoldable pub received : Dictionary → Message → Message
received d m = record {
  type = m.type;
  id = if message_has_id m.type then m.id else 0;
  route = if message_has_route m.type then m.route else [];
  payload = m.payload;
  route_compressed = message_has_route m.type && is_found (get_code m.route d.routes);
  error = false;
}

-- What a message must satisfy: an id of 64 bits, a route of at most 255 bytes, codes of 16 bits.
pub record IsSendable (d : Dictionary) (m : Message) : Type 0 where
  pub type_le : m.type ≤ 3
  pub id_lt : m.id < 2 ^ 64
  pub route_lt : get_code m.route d.routes ≡ none → length m.route < 256
  pub code_lt : (c : ℕ) → get_code m.route d.routes ≡ some c → c < 2 ^ 16

module _ {ℓ} {A : Type ℓ} where
  take_whole : (xs ys zs : List A) → take (length xs) ((xs ++ ys) ++ zs) ≡ xs
  take_whole [] ys zs = refl
  take_whole (x ∷ xs) ys zs = ap (◌∷◌ x) (take_whole xs ys zs)

  drop_whole : (xs ys : List A) → drop (length xs) (xs ++ ys) ≡ ys
  drop_whole [] ys = refl
  drop_whole (x ∷ xs) ys = drop_whole xs ys

-- What the flag says of its four parts.
FlagOf : ℕ → Bool → ℕ → Type 0
FlagOf t b flag =
    (flag / 2 % 8 ≡ t)
    × (flag % 2 ≡ (if b then 1 else 0))
    × (flag / 16 % 2 ≡ 0)
    × (flag / 32 % 2 ≡ 0)

encode_message_flag-FlagOf : (t : ℕ) (b : Bool) → t ≤ 3 → FlagOf t b (encode_message_flag t b)
unfolding FlagOf encode_message_flag
encode_message_flag-FlagOf t true h = (omega arith, omega arith, omega arith, omega arith)
encode_message_flag-FlagOf t false h = (omega arith, omega arith, omega arith, omega arith)

low_bit : (t : ℕ) (b : Bool) (flag : ℕ) → FlagOf t b flag → flag % 2 ≡ (if b then 1 else 0)
unfolding FlagOf
low_bit t b flag shown = shown.1

module _ (d : Dictionary) (consistent : IsConsistent d) (spare route payload : List ℕ)
    (flag : ℕ) where
  two_bytes :
      (a b : ℕ)
      → get_route (a * 256 + b) d.codes ≡ some route
      → compressed_route d spare (a ∷ b ∷ payload) (a ∷ b ∷ payload ++ spare) ≡ ok (route, payload)
  unfolding compressed_route
  two_bytes a b e = rw (e, compressed_route) (ground arith)

  short_route :
      (c : ℕ)
      → get_code route d.routes ≡ some c
      → c < 2 ^ 16
      → compressed_route d spare
          (encode_message_route (some c) route ++ payload)
          ((encode_message_route (some c) route ++ payload) ++ spare)
        ≡ ok (route, payload)
  unfolding compressed_route encode_message_route
  short_route c e h =
      two_bytes (c / 256 % 256) (c % 256)
        (ap (λ (n : ℕ). get_route n d.codes) (omega arith) ∙ (consistent route c).0 e)

  long_route :
      length route < 256
      → plain_route spare (encode_message_route none route ++ payload) ≡ ok (route, payload)
  unfolding plain_route encode_message_route
  long_route h =
      let same : length route % 256 ≡ length route = omega arith in
      rw (same, take_whole route payload spare, drop_whole route payload)
        (ground (arith, length-append route payload, length-append (route ++ payload) spare))

  decode-encode_route :
      (t : ℕ)
      → flag % 2 ≡ (if is_found (get_code route d.routes) then 1 else 0)
      → (get_code route d.routes ≡ none → length route < 256)
      → ((c : ℕ) → get_code route d.routes ≡ some c → c < 2 ^ 16)
      → decode_route d spare t flag (
          (if message_has_route t then encode_message_route (get_code route d.routes) route else [])
          ++ payload)
        ≡ ok (if message_has_route t then route else [], payload)
  unfolding decode_route
  decode-encode_route t hf hr hc = elim (Bool-cases (message_has_route t)) [
    | inr has ↦ rw has refl
    | inl has ↦ elim (Option-cases (get_code route d.routes)) [
      | inl e ↦ rw (has, e) (ground (arith, long_route (hr e), e))
      | inr (c, e) ↦ rw (has, e) (ground (arith, short_route c e (hc c e), e))
    ]
  ]

-- What `MessageDecode` returns once its flag, its id and its route are read.
read_parts :
    (inflate : List ℕ → Option (List ℕ)) (d : Dictionary) (spare : List ℕ) (flag t : ℕ)
    (body bs : List ℕ) (b : Bool) (r : List ℕ × List ℕ)
    → FlagOf t b flag
    → t ≤ 3
    → (if message_has_id t then after_id body (decode_id body 0 0).1 else body) ≡ bs
    → decode_route d spare t flag bs ≡ ok r
    → message_decode inflate d spare (flag ∷ body)
      ≡ ok (record {
        type = t;
        id = if message_has_id t then (decode_id body 0 0).0 else 0;
        route = r.0;
        payload = r.1;
        route_compressed = message_has_route t && b;
        error = false;
      })
unfolding message_decode decode_payload FlagOf
read_parts inflate d spare flag t body bs b r (ht, hb, hz, he) small hbs hr =
    let low : (flag % 2 == 1) ≡ b = ground (arith, Bool-cases b) in
    let known : ltb push t ≡ false = ground arith in rw (ht, hbs, hr, hz, he, low, known) refl

pub read_id :
    (t id : ℕ) (rest : List ℕ)
    → id < 2 ^ 64
    → let body = (if message_has_id t then encode_id 10 id else []) ++ rest in
      ((if message_has_id t then after_id body (decode_id body 0 0).1 else body) ≡ rest)
      × ((if message_has_id t then (decode_id body 0 0).0 else 0)
          ≡ (if message_has_id t then id else 0))
read_id t id rest h = elim (Bool-cases (message_has_id t)) [
  | inl has ↦
      rw (has, decode_id-encode_id 9 id 0 0 rest (omega arith) (omega arith)) (refl, omega arith)
  | inr has ↦ rw has (refl, refl)
]

-- With a consistent dictionary, decoding an encoded sendable message gives the message received.
pub message_decode-message_encode :
    (inflate : List ℕ → Option (List ℕ)) (d : Dictionary) (spare : List ℕ) (m : Message)
    → IsConsistent d
    → IsSendable d m
    → message_decode inflate d spare (message_encode d m) ≡ ok (received d m)
unfolding message_encode received
message_decode-message_encode inflate d spare m consistent s =
    let code = get_code m.route d.routes in
    let flag = encode_message_flag m.type (is_found code) in
    let shown = encode_message_flag-FlagOf m.type (is_found code) s.type_le in
    let sent : List ℕ =
      if message_has_route m.type then encode_message_route code m.route else [] in
    let route : List ℕ = if message_has_route m.type then m.route else [] in
    let (where_id, what_id) = read_id m.type m.id (sent ++ m.payload) s.id_lt in
    let where_route : decode_route d spare m.type flag (sent ++ m.payload) ≡ ok (route, m.payload) =
      decode-encode_route d consistent spare m.route m.payload flag m.type (low_bit _ _ _ shown)
        s.route_lt s.code_lt in
    read_parts inflate d spare flag m.type _ _ (is_found code) (route, m.payload) shown s.type_le
      where_id where_route
    ∙ rw what_id refl
