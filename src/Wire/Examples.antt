-- ===== src/Wire/Examples.antt =====
-- A request with a body of two bytes, hashed by its length.
use fractalbits.Base.{
  false, refl, ℕ, ◌+◌, ◌%◌, ◌^◌, ◌<◌, ◌≡◌, true, some, [], ◌∷◌, ◌++◌, arith, drop,
}
use fractalbits.Base.Results.{ok}
use fractalbits.Wire.Receive.{MessageFrame, receive_task}
use fractalbits.Wire.Receive.Delivered.{stream, IsSealed, receive_task-stream}
use fractalbits.Wire.Receive.Ends.{Ends, receive_task-Ends}
use fractalbits.Wire.Receive.Checked.{IsPrefixOf, receive_task-IsPrefixOf}
use fractalbits.Wire.{
  write_words, remainder, set_body_checksum, remainder, Bytes, ProtobufMessageHeader, encode,
  decode, set_checksum, set_body, set_request, get_body_size, verify_header_checksum_raw,
  verify_body_checksum,
}
use fractalbits.Wire.Words.{IsHeader}
use fractalbits.Wire.Frames.{request_accepted}

abbrev plain : ProtobufMessageHeader
plain = record {
  checksum = 0;
  proto_version = 1;
  retry_count = 0;
  reserved0 = 0;
  size = 0;
  checksum_body = 0;
  id = 0;
  command = 0;
  trace_id = 0;
  reserved1 = 0;
}

abbrev payload : Bytes
payload = 7 ∷ 8 ∷ []

-- The sum of the bytes, as a hash.
abbrev hash_of : Bytes → ℕ
hash_of [] = 0
hash_of (b ∷ bs) = (b + hash_of bs) % 2 ^ 64

hash_word : (bs : Bytes) → hash_of bs < 2 ^ 64
hash_word [] = omega arith
hash_word (b ∷ bs) = omega arith

plain-IsHeader : IsHeader plain
plain-IsHeader = unfold remainder in ground arith

abbrev sent : ProtobufMessageHeader
sent = set_checksum hash_of (set_body hash_of payload (set_request 5 4294967295 1 9 plain))

request_accepted_example :
    (verify_header_checksum_raw hash_of (encode sent ++ payload) ≡ true)
    × (decode (encode sent ++ payload) ≡ some sent)
    × (verify_body_checksum hash_of sent payload ≡ true)
    × (drop 48 (encode sent ++ payload) ≡ payload)
    × (get_body_size sent ≡ 2)
    × (sent.id ≡ 5)
    × (sent.trace_id ≡ 9)
request_accepted_example =
    request_accepted hash_of hash_word plain 5 4294967295 1 9 payload plain-IsHeader (ground arith)
      (ground arith) (ground arith) (ground arith) (ground arith)

abbrev received : Bytes
received =
    3 ∷ 0 ∷ 0 ∷ 0 ∷ 0 ∷ 0 ∷ 0 ∷ 0 ∷ 1 ∷ 2 ∷ 0 ∷ 0 ∷ 0 ∷ 0 ∷ 0 ∷ 0 ∷ 0 ∷ 0 ∷ 0 ∷ 0 ∷ 0 ∷ 0 ∷ 0 ∷ 0
    ∷ 0 ∷ 0 ∷ 0 ∷ 0 ∷ 0 ∷ 0 ∷ 0 ∷ 0 ∷ 0 ∷ 0 ∷ 0 ∷ 0 ∷ 0 ∷ 0 ∷ 0 ∷ 0 ∷ 0 ∷ 0 ∷ 0 ∷ 0 ∷ 0 ∷ 0 ∷ 0 ∷ 0
    ∷ []

abbrev received_header : ProtobufMessageHeader
received_header = record plain { checksum = 3; retry_count = 2 }

abbrev request : MessageFrame
request = record { header = sent; body = payload }

sent-IsSealed : IsSealed hash_of request
sent-IsSealed =
    unfold set_checksum set_body set_body_checksum set_request encode write_words remainder in
    ((ground arith), refl, refl, refl)

receive_task-stream_example :
    receive_task hash_of 3 true (stream (request ∷ request ∷ []) (1 ∷ []))
    ≡ (request ∷ request ∷ [], some (ok tt))
receive_task-stream_example =
    receive_task-stream hash_of 3 true (request ∷ request ∷ []) (1 ∷ [])
      (sent-IsSealed, (sent-IsSealed, tt)) (ground arith) (ground arith)

receive_task-IsPrefixOf_example :
    IsPrefixOf hash_of (receive_task hash_of 5 true received).0 received
receive_task-IsPrefixOf_example = receive_task-IsPrefixOf hash_of 5 true received (ground arith)

receive_task-Ends_example : Ends (receive_task hash_of 49 false received)
receive_task-Ends_example = receive_task-Ends hash_of 49 false received (ground arith)
