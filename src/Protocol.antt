-- ===== src/Protocol.antt =====
-- connector/infrastructure/message/protocol/protocal.go and tools.go, which game and march carry too:
-- packets with a header of four bytes, the messages in them, and the dictionary of routes.
-- A byte slice is a list of numbers, and so is a Go string; `Data` that is nil is the empty list.
pub mod Frames
pub mod Ids
pub mod Dictionaries
pub mod RoundTrip
pub mod Packets
pub mod Panics
use go_mahjong.Common.{
  ℕ, zero, suc, ◌+◌, ◌*◌, ◌/◌, ◌%◌, ◌^◌, Bool, true, false, ◌&&◌, ◌||◌, List, [], ◌∷◌, ◌++◌, Option,
  none, some, ltb, leb, ◌==◌, if◌then◌else◌, length, take, drop,
}

-- What `errors.New` says, and what the packages of others say.
pub data ProtocolError : Type 0 where
  unsupported_package body_too_big bad_format json_error : ProtocolError
  invalid_type invalid_transfer route_not_found inflate_error : ProtocolError

-- A result, an error, or a panic: an index or a slice out of bounds.
pub data Outcome {ℓ} (A : Type ℓ) : Type ℓ where
  ok : A → Outcome A
  err : ProtocolError → Outcome A
  panic : Outcome A

infixl 5 ◌>>=◌
abbrev pub ◌>>=◌ {ℓ κ} : {A : Type ℓ} {B : Type κ} → Outcome A → (A → Outcome B) → Outcome B
ok a >>= f = f a
err e >>= f = err e
panic >>= f = panic

abbrev pub is_panic {ℓ} : {A : Type ℓ} → Outcome A → Bool
is_panic (ok a) = false
is_panic (err e) = false
is_panic panic = true

-- The constants of `MessageType`.
abbrev pub request : ℕ
request = 0

abbrev pub notify : ℕ
notify = 1

abbrev pub response : ℕ
response = 2

abbrev pub push : ℕ
push = 3

pub record Message : Type 0 where
  pub type : ℕ
  pub id : ℕ
  pub route : List ℕ
  pub payload : List ℕ
  pub route_compressed : Bool
  pub error : Bool

abbrev pub same_bytes : List ℕ → List ℕ → Bool
same_bytes [] [] = true
same_bytes (x ∷ xs) (y ∷ ys) = x == y && same_bytes xs ys
same_bytes [] (y ∷ ys) = false
same_bytes (x ∷ xs) [] = false

-- The two maps `routes` and `codes`.
pub record Dictionary : Type 0 where
  pub routes : List (List ℕ × ℕ)
  pub codes : List (ℕ × List ℕ)

unfoldable pub get_code : List ℕ → List (List ℕ × ℕ) → Option ℕ
get_code route [] = none
get_code route ((r, c) ∷ rs) = if same_bytes r route then some c else get_code route rs

unfoldable pub get_route : ℕ → List (ℕ × List ℕ) → Option (List ℕ)
get_route code [] = none
get_route code ((c, r) ∷ cs) = if c == code then some r else get_route code cs

-- `SetDictionary`, over the entries in the order in which Go visits them; `trim` is `strings.TrimSpace`.
-- It stops at the first route or code that is there already, and keeps what it has entered.
unfoldable pub set_dictionary : (List ℕ → List ℕ) → List (List ℕ × ℕ) → Dictionary → Dictionary
set_dictionary trim [] d = d
set_dictionary trim ((route, code) ∷ es) d =
    let r = trim route in
    let rest =
      set_dictionary trim es
        (record d { routes = (r, code) ∷ d.routes; codes = (code, r) ∷ d.codes }) in
    elim (get_code r d.routes) [
      | some c ↦ d
      | none ↦ elim (get_route code d.codes) [ some s ↦ d | none ↦ rest ]
    ]

abbrev pub message_has_id : ℕ → Bool
message_has_id t = t == request || t == response

abbrev pub message_has_route : ℕ → Bool
message_has_route t = t == request || t == notify || t == push

-- The loop of `encodeMessageID`: ten rounds are enough for an id of 64 bits.
unfoldable pub encode_id : ℕ → ℕ → List ℕ
encode_id zero id = []
encode_id (suc rounds) id =
    let rest = encode_id rounds (id / 128) in
    if id / 128 == 0 then (id % 128) ∷ [] else (id % 128 + 128) ∷ rest

unfoldable pub encode_message_flag : ℕ → Bool → ℕ
encode_message_flag t compressed = t * 2 % 256 + (if compressed then 1 else 0)

unfoldable pub encode_message_route : Option ℕ → List ℕ → List ℕ
encode_message_route none route = (length route % 256) ∷ route
encode_message_route (some code) route = (code / 256 % 256) ∷ (code % 256) ∷ []

abbrev pub is_found : Option ℕ → Bool
is_found none = false
is_found (some c) = true

unfoldable pub message_encode : Dictionary → Message → List ℕ
message_encode d m =
    let code = get_code m.route d.routes in
    encode_message_flag m.type (is_found code)
      ∷ (if message_has_id m.type then encode_id 10 m.id else [])
    ++ ((if message_has_route m.type then encode_message_route code m.route else []) ++ m.payload)

-- The loop that reads an id: what it adds up, and what follows the byte that ends it. With no such
-- byte the offset stays where it was.
unfoldable pub decode_id : List ℕ → ℕ → ℕ → ℕ × Option (List ℕ)
decode_id [] shift id = (id, none)
decode_id (b ∷ bs) shift id =
    let id' = (id + b % 128 * 2 ^ shift % 2 ^ 64) % 2 ^ 64 in
    let more = decode_id bs (shift + 7) id' in if ltb b 128 then (id', some bs) else more

abbrev pub after_id : List ℕ → Option (List ℕ) → List ℕ
after_id bs none = bs
after_id bs (some rest) = rest

-- The route of a message and what follows. A slice may reach into `spare`, the bytes behind the body
-- in its array; the code finds out afterwards that it went past the end.
unfoldable pub compressed_route : Dictionary → List ℕ → List ℕ → List ℕ → Outcome (List ℕ × List ℕ)
compressed_route d spare bs (a ∷ b ∷ more) = elim (get_route (a * 256 + b) d.codes) [
  | none ↦ err route_not_found
  | some route ↦ if ltb (length bs) 2 then err invalid_transfer else ok (route, drop 2 bs)
]
compressed_route d spare bs (a ∷ []) = panic
compressed_route d spare bs [] = panic

unfoldable pub plain_route : List ℕ → List ℕ → Outcome (List ℕ × List ℕ)
plain_route spare [] = panic
plain_route spare (n ∷ bs) =
    if ltb (length (bs ++ spare)) n
    then panic
    else if ltb (length bs) n
    then err invalid_transfer
    else ok (take n (bs ++ spare), drop n bs)

unfoldable pub decode_route : Dictionary → List ℕ → ℕ → ℕ → List ℕ → Outcome (List ℕ × List ℕ)
decode_route d spare t flag bs =
    if message_has_route t
    then (if flag % 2 == 1 then compressed_route d spare bs (bs ++ spare) else plain_route spare bs)
    else ok ([], bs)

-- `InflateData` calls zlib, a parameter: none stands for its error.
unfoldable pub decode_payload : (List ℕ → Option (List ℕ)) → ℕ → List ℕ → Outcome (List ℕ)
decode_payload inflate flag bs =
    if flag / 16 % 2 == 1
    then elim (inflate bs) [ none ↦ err inflate_error | some out ↦ ok out ]
    else ok bs

unfoldable pub message_decode :
    (List ℕ → Option (List ℕ)) → Dictionary → List ℕ → List ℕ → Outcome Message
message_decode inflate d spare [] = panic
message_decode inflate d spare (flag ∷ body) =
    let t = flag / 2 % 8 in
    let (read_id, after) = decode_id body 0 0 in
    let id = if message_has_id t then read_id else 0 in
    let bs = if message_has_id t then after_id body after else body in
    if ltb push t
    then err invalid_type
    else (decode_route d spare t flag bs >>= λ (r : List ℕ × List ℕ).
        decode_payload inflate flag r.1 >>= λ (payload : List ℕ). ok (record {
          type = t;
          id = id;
          route = r.0;
          payload = payload;
          route_compressed = message_has_route t && flag % 2 == 1;
          error = flag / 32 % 2 == 1;
        }))
