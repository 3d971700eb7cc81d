-- ===== src/Codec/Tests.antt =====
-- Frames on concrete messages, and the theorems on them.
use madoka.Common.{ℕ, ◌≡◌, refl, List, [], ◌∷◌, ◌++◌, none, arith, length, All}
use madoka.Bytes.{IsByte}
use madoka.Bytes.Slice.{ok}
use madoka.Codec.{
  Message, data_message, message_validate, message_encode, message_decode, message_peek_size,
  to_string,
}
use madoka.Codec.RoundTrip.{decode-encode, decode-inv}

abbrev three_bytes : Message
three_bytes = record { version = 1; type = data_message; payload = 7 ∷ 8 ∷ 9 ∷ [] }

abbrev stream : List ℕ
stream = 1 ∷ 3 ∷ 0 ∷ 3 ∷ 7 ∷ 8 ∷ 9 ∷ 1 ∷ []

stream-bytes : All IsByte stream
stream-bytes = ground arith

stream_decoded : message_decode stream ≡ ok three_bytes
unfolding message_decode
stream_decoded = refl

stream_peeked : message_peek_size stream ≡ ok 7
unfolding message_peek_size
stream_peeked = refl

three_bytes_valid : message_validate three_bytes ≡ none
unfolding message_validate
three_bytes_valid = refl

decode-encode_example :
    (message_decode (message_encode three_bytes ++ 1 ∷ []) ≡ ok three_bytes)
    × (message_peek_size (message_encode three_bytes ++ 1 ∷ [])
        ≡ ok (length (message_encode three_bytes)))
decode-encode_example = decode-encode three_bytes (1 ∷ []) three_bytes_valid

decode-inv_example :
    (message_validate three_bytes ≡ none)
    × ((rest : List ℕ) × (stream ≡ message_encode three_bytes ++ rest))
decode-inv_example = decode-inv stream three_bytes stream-bytes stream_decoded

to_string_run : to_string data_message ≡ "Data"
unfolding to_string
to_string_run = refl
