-- ===== src/Protocol/Packets.antt =====
-- Packets: a header of four bytes around a body.
use go_mahjong.Common.{
  ℕ, ◌%◌, ◌^◌, ◌≤◌, ◌≡◌, refl, true, false, List, ◌∷◌, ◌++◌, arith, ltb, leb, ◌&&◌, ◌==◌,
  Bool-cases, Option-cases, inl, inr, length, drop,
}
use go_mahjong.Protocol.{
  Dictionary, Message, Outcome, ok, err, panic, ◌>>=◌, message_encode, message_decode, is_panic,
}
use go_mahjong.Protocol.Frames.{
  packet_type, wrap, decode, message_body, Codecs, data_package, handshake, int_to_bytes,
  bytes_to_int, max_packet_size,
}
use go_mahjong.Protocol.Dictionaries.{IsConsistent}
use go_mahjong.Protocol.RoundTrip.{IsSendable, received, message_decode-message_encode}

-- Reading back a length written in three bytes gives it modulo 2 ^ 24.
pub bytes_to_int-int_to_bytes : (n : ℕ) → bytes_to_int (int_to_bytes n) ≡ n % 2 ^ 24
unfolding bytes_to_int int_to_bytes
bytes_to_int-int_to_bytes n = omega arith

read_data :
    (c : Codecs) (d : Dictionary) (spare : List ℕ) (m : Message) (body : List ℕ)
    → message_decode c.inflate d spare body ≡ ok m
    → decode c d spare (data_package ∷ int_to_bytes (length body) ++ body)
      ≡ ok (record { type = data_package; len = length body % 2 ^ 24; body = message_body m }, d)
unfolding decode int_to_bytes
read_data c d spare m body e = rw e (ground (arith, bytes_to_int-int_to_bytes (length body)))

-- With dictionaries that agree and a message of a type at most 3, an id of 64 bits, a code of 16
-- bits or a route below 256 bytes, wrapping and decoding a data packet of at most 2^24 bytes
-- gives the message back: its id and its route where the type has them, its data, and no mark of
-- an error. The length that is read is that of the body modulo 2^24.
pub decode-wrap :
    (c : Codecs) (d : Dictionary) (spare : List ℕ) (m : Message)
    → IsConsistent d
    → IsSendable d m
    → length (message_encode d m) ≤ max_packet_size
    → (wrap data_package (message_encode d m) >>= decode c d spare)
      ≡ ok (
        record {
          type = data_package;
          len = length (message_encode d m) % 2 ^ 24;
          body = message_body (received d m);
        },
        d,
      )
unfolding wrap
decode-wrap c d spare m consistent s small =
    let known : ltb max_packet_size (length (message_encode d m)) ≡ false = ground arith in
    rw known (
      read_data c d spare (received d m) (message_encode d m)
        (message_decode-message_encode c.inflate d spare m consistent s))

pub is_panic-bind {ℓ κ} :
    {A : Type ℓ} {B : Type κ} (x : Outcome A) (f : A → B)
    → is_panic (x >>= λ (a : A). ok (f a)) ≡ is_panic x
is_panic-bind (ok a) f = refl
is_panic-bind (err e) f = refl
is_panic-bind panic f = refl

-- Decode panics exactly on the data packets, of at least four bytes, on whose body MessageDecode
-- panics: on no other packet, and never for JSON or a dictionary.
pub is_panic-decode :
    (c : Codecs) (d : Dictionary) (spare payload : List ℕ)
    → is_panic (decode c d spare payload)
      ≡ leb 4 (length payload)
        && packet_type payload == data_package
        && is_panic (message_decode c.inflate d spare (drop 4 payload))
unfolding decode
is_panic-decode c d spare payload =
    let t = packet_type payload in
    elim (Bool-cases (ltb (length payload) 4)) [
      | inl short ↦
          let known : leb 4 (length payload) ≡ false = ground arith in rw (short, known) refl
      | inr long ↦
          let known : leb 4 (length payload) ≡ true = ground arith in
          elim (Bool-cases (t == handshake)) [
            | inl shakes ↦
                let other : (t == data_package) ≡ false = ground arith in
                elim (Option-cases (c.unmarshal (drop 4 payload))) [
                  | inl e ↦ rw (long, known, shakes, other, e, decode) refl
                  | inr (dict, e) ↦ rw (long, known, shakes, other, e, decode) refl
                ]
            | inr other ↦ elim (Bool-cases (t == data_package)) [
              | inl sends ↦
                  rw (long, known, other, sends)
                    (is_panic-bind (message_decode c.inflate d spare (drop 4 payload)) _)
              | inr sends ↦ rw (long, known, other, sends) refl
            ]
          ]
    ]
