-- ===== src/Protocol/Frames.antt =====
-- connector/infrastructure/message/protocol/protocal.go and tools.go: packets with a header of four bytes.
use go_mahjong.Common.{
  ℕ, ◌+◌, ◌*◌, ◌/◌, ◌%◌, ◌^◌, List, [], ◌∷◌, ◌++◌, Option, none, some, ltb, ◌==◌, if◌then◌else◌,
  length, take, drop,
}
use go_mahjong.Protocol.{
  Outcome, ok, err, ◌>>=◌, unsupported_package, body_too_big, bad_format, json_error, Message,
  Dictionary, set_dictionary, message_decode,
}

-- The constants of `PackageType`.
abbrev pub handshake : ℕ
handshake = 1

abbrev pub data_package : ℕ
data_package = 4

abbrev pub max_packet_size : ℕ
max_packet_size = 2 ^ 24

unfoldable pub int_to_bytes : ℕ → List ℕ
int_to_bytes n = (n / 2 ^ 16 % 256) ∷ (n / 2 ^ 8 % 256) ∷ (n % 256) ∷ []

unfoldable pub bytes_loop : List ℕ → ℕ → ℕ
bytes_loop [] result = result
bytes_loop (b ∷ bs) result = bytes_loop bs (result * 256 + b)

-- `|` of parts that do not overlap.
unfoldable pub bytes_to_int : List ℕ → ℕ
bytes_to_int (a ∷ b ∷ c ∷ bs) = a * 2 ^ 16 + b * 2 ^ 8 + c
bytes_to_int bs = bytes_loop bs 0

unfoldable pub wrap : ℕ → List ℕ → Outcome (List ℕ)
wrap package_type body =
    if package_type == 0
    then err unsupported_package
    else if ltb max_packet_size (length body)
    then err body_too_big
    else ok (package_type ∷ int_to_bytes (length body) ++ body)

-- What `Body` holds: nothing, the dictionary of a handshake, or a message.
pub data PacketBody : Type 0 where
  no_body : PacketBody
  handshake_body : Option (List (List ℕ × ℕ)) → PacketBody
  message_body : Message → PacketBody

pub record Packet : Type 0 where
  pub type : ℕ
  pub len : ℕ
  pub body : PacketBody

-- The packages that `Decode` calls: JSON gives the dictionary of a handshake, if it has one.
pub record Codecs : Type 0 where
  pub trim : List ℕ → List ℕ
  pub inflate : List ℕ → Option (List ℕ)
  pub unmarshal : List ℕ → Option (Option (List (List ℕ × ℕ)))

abbrev pub enter_dictionary : Codecs → Option (List (List ℕ × ℕ)) → Dictionary → Dictionary
enter_dictionary c none d = d
enter_dictionary c (some es) d = set_dictionary c.trim es d

-- The first byte, 0 where there is none.
abbrev pub packet_type : List ℕ → ℕ
packet_type [] = 0
packet_type (b ∷ bs) = b

unfoldable pub decode : Codecs → Dictionary → List ℕ → List ℕ → Outcome (Packet × Dictionary)
decode c d spare payload =
    let t = packet_type payload in
    let len = bytes_to_int (take 3 (drop 1 payload)) in
    let rest = drop 4 payload in
    let with_message : Outcome (Packet × Dictionary) =
      message_decode c.inflate d spare rest >>= λ (m : Message).
      ok (record { type = t; len = len; body = message_body m }, d) in
    let with_handshake : Outcome (Packet × Dictionary) = elim (c.unmarshal rest) [
      | none ↦ err json_error
      | some dict ↦
          ok (record { type = t; len = len; body = handshake_body dict }, enter_dictionary c dict d)
    ] in
    if ltb (length payload) 4
    then err bad_format
    else if t == handshake
    then with_handshake
    else if t == data_package
    then with_message
    else ok (record { type = t; len = len; body = no_body }, d)
