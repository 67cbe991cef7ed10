-- ===== src/Examples/Packets.antt =====
-- Packets and dictionaries.
use go_mahjong.Common.{
  ℕ, refl, false, List, [], ◌∷◌, none, some, arith, ◌==◌, length, leb, ◌&&◌, drop, ◌≡◌, ◌%◌, ◌^◌,
}
use go_mahjong.Protocol.{
  Message, Dictionary, request, notify, Outcome, ok, panic, ◌>>=◌, message_encode, message_decode,
  get_code, get_route, set_dictionary, is_panic, encode_id,
}
use go_mahjong.Protocol.Frames.{Codecs, wrap, decode, message_body, data_package, packet_type}
use go_mahjong.Protocol.Dictionaries.{IsConsistent, set_dictionary-IsConsistent}
use go_mahjong.Protocol.RoundTrip.{IsSendable, received}
use go_mahjong.Protocol.Packets.{decode-wrap}
use go_mahjong.Protocol.Panics.{is_truncated, is_panic-decode_truncated}

abbrev dictionary : Dictionary
dictionary = record { routes = []; codes = [] }

-- A dictionary that knows no route is consistent, and so is what is entered into it.
dictionary-IsConsistent : IsConsistent dictionary
unfolding get_code get_route
dictionary-IsConsistent r c = (λ e. cc, λ e. cc)

abbrev entries : List (List ℕ × ℕ)
entries = (65 ∷ 66 ∷ [], 7) ∷ (67 ∷ [], 300) ∷ []

abbrev entered : Dictionary
entered = record {
  routes = (67 ∷ [], 300) ∷ (65 ∷ 66 ∷ [], 7) ∷ [];
  codes = (300, 67 ∷ []) ∷ (7, 65 ∷ 66 ∷ []) ∷ [];
}

set_dictionary-entries : set_dictionary (λ r. r) entries dictionary ≡ entered
unfolding set_dictionary get_code get_route
set_dictionary-entries = refl

set_dictionary-IsConsistent_example : IsConsistent (set_dictionary (λ r. r) entries dictionary)
set_dictionary-IsConsistent_example =
    set_dictionary-IsConsistent (λ r. r) entries dictionary dictionary-IsConsistent

abbrev codecs : Codecs
codecs = record { trim = λ r. r; inflate = λ bs. some bs; unmarshal = λ bs. some none }

abbrev message : Message
message = record {
  type = request;
  id = 300;
  route = 67 ∷ [];
  payload = 1 ∷ 2 ∷ 3 ∷ [];
  route_compressed = false;
  error = false;
}

message-IsSendable : IsSendable dictionary message
unfolding get_code
message-IsSendable = record {
  type_le = omega arith;
  id_lt = omega arith;
  route_lt = λ e. omega arith;
  code_lt = λ c e. cc;
}

decode-wrap_example :
    (wrap data_package (message_encode dictionary message) >>= decode codecs dictionary [])
    ≡ ok (
      record {
        type = data_package;
        len = length (message_encode dictionary message) % 2 ^ 24;
        body = message_body (received dictionary message);
      },
      dictionary,
    )
unfolding message_encode encode_id get_code go_mahjong.Protocol.encode_message_route
decode-wrap_example =
    decode-wrap codecs dictionary [] message dictionary-IsConsistent message-IsSendable
      (omega arith)

abbrev empty_packet : List ℕ
empty_packet = 4 ∷ 0 ∷ 0 ∷ 0 ∷ []

is_panic-decode_truncated_example :
    is_panic (decode codecs dictionary [] empty_packet)
    ≡ leb 4 (length empty_packet)
      && packet_type empty_packet == data_package
      && is_truncated (drop 4 empty_packet)
is_panic-decode_truncated_example = is_panic-decode_truncated codecs dictionary empty_packet
