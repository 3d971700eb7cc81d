-- ===== src/Trust/Base64/RoundTrip.antt =====
-- What is written in base64 is read back.
use madoka.Common.{
  ℕ, ◌+◌, ◌*◌, ◌/◌, ◌%◌, ◌^◌, ◌<◌, ◌≡◌, refl, ap, ◌∙◌, false, List, [], ◌∷◌, Option, some, arith,
  length, ◌==◌, All,
}
use madoka.Bytes.{IsByte, bytes_eq_iff}
use madoka.Trust.Base64.{
  Decoded, alphabet_at, push_chars, encode_loop, base64url_encode, put_byte, decode_loop,
  base64url_decode,
}
use madoka.Trust.Base64.Groups.{
  first_byte, second_byte, encode-three, encode-one, encode-two, decode-char, decode-four,
  decode-nothing,
}

-- A decoder that has pushed `bytes`, with no bit set in what it has left.
abbrev HasRead : List ℕ → Option Decoded → Type 0
HasRead bytes d =
    (x : ℕ) × ((n : ℕ) × ((d ≡ some (record { bytes = bytes; buffer = x; bits = n }))
        × (x % 2 ^ n ≡ 0)))

put-HasRead :
    (a : ℕ) (bytes : List ℕ) (d : Option Decoded)
    → HasRead bytes d
    → HasRead (a ∷ bytes) (put_byte a d)
put-HasRead a bytes d (x, (n, (e, z))) = (x, (n, (ap (put_byte a) e, z)))

byte_of_two : (a b : ℕ) → IsByte b → a / 4 * 4 + (a % 4 * 16 + b / 16) / 16 ≡ a
byte_of_two a b h = omega (arith, h)

byte_of_next :
    (a b c : ℕ)
    → IsByte b
    → IsByte c
    → (a % 4 * 16 + b / 16) % 16 * 16 + (b % 16 * 4 + c / 64) / 4 ≡ b
byte_of_next a b c h k = omega (arith, h, k)

byte_of_last : (b c : ℕ) → IsByte c → (b % 16 * 4 + c / 64) % 4 * 64 + c % 64 ≡ c
byte_of_last b c h = omega (arith, h)

four-HasRead :
    (w a b c : ℕ) (rest : List ℕ) (bytes : List ℕ)
    → IsByte a
    → IsByte b
    → IsByte c
    → ((w' : ℕ) → HasRead bytes (decode_loop w' 0 rest))
    → HasRead (a ∷ b ∷ c ∷ bytes) (
        decode_loop w 0 (
          alphabet_at (a / 4)
          ∷ alphabet_at (a % 4 * 16 + b / 16)
          ∷ alphabet_at (b % 16 * 4 + c / 64)
          ∷ alphabet_at (c % 64)
          ∷ rest))
four-HasRead w a b c rest bytes ha hb hc h =
    let (w', e) =
      decode-four w (a / 4) (a % 4 * 16 + b / 16) (b % 16 * 4 + c / 64) (c % 64) rest
        (omega (arith, ha)) (omega (arith, hb)) (omega (arith, hc)) (omega arith) in
    let d = decode_loop w' 0 rest in
    let read : HasRead (a ∷ b ∷ c ∷ bytes) (put_byte a (put_byte b (put_byte c d))) =
      put-HasRead a (b ∷ c ∷ bytes) (put_byte b (put_byte c d))
        (put-HasRead b (c ∷ bytes) (put_byte c d) (put-HasRead c bytes d (h w'))) in
    rw (e, byte_of_two a b hb, byte_of_next a b c hb hc, byte_of_last b c hc) read

one-HasRead :
    (w a : ℕ)
    → IsByte a
    → HasRead (a ∷ []) (decode_loop w 0 (alphabet_at (a / 4) ∷ alphabet_at (a % 4 * 16) ∷ []))
one-HasRead w a h =
    let va = w * 2 ^ 6 % 2 ^ 32 + a / 4 in
    let vt = va * 2 ^ 6 % 2 ^ 32 + a % 4 * 16 in
    let s_six : a / 4 < 64 = omega (arith, h) in
    let t_six : a % 4 * 16 < 64 = omega arith in
    let byte : vt / 2 ^ 4 % 256 ≡ a = first_byte w (a / 4) (a % 4 * 16) s_six t_six ∙ omega arith in
    (
      vt,
      (
        4,
        (
          decode-char w 0 (a / 4) (alphabet_at (a % 4 * 16) ∷ []) s_six
              ∙ decode-char va 6 (a % 4 * 16) [] t_six
              ∙ ap (put_byte (vt / 2 ^ 4 % 256)) (decode-nothing vt 4)
              ∙ ap (λ x. some (record { bytes = x ∷ []; buffer = vt; bits = 4 })) byte,
          omega arith,
        ),
      ),
    )

two-HasRead :
    (w a b : ℕ)
    → IsByte a
    → IsByte b
    → HasRead (a ∷ b ∷ []) (
        decode_loop w 0
          (alphabet_at (a / 4) ∷ alphabet_at (a % 4 * 16 + b / 16) ∷ alphabet_at (b % 16 * 4) ∷ []))
two-HasRead w a b h k =
    let t = a % 4 * 16 + b / 16 in
    let u = b % 16 * 4 in
    let va = w * 2 ^ 6 % 2 ^ 32 + a / 4 in
    let vt = va * 2 ^ 6 % 2 ^ 32 + t in
    let vu = vt * 2 ^ 6 % 2 ^ 32 + u in
    let s_six : a / 4 < 64 = omega (arith, h) in
    let t_six : t < 64 = omega (arith, k) in
    let u_six : u < 64 = omega arith in
    let first : vt / 2 ^ 4 % 256 ≡ a = first_byte w (a / 4) t s_six t_six ∙ byte_of_two a b k in
    let second : vu / 2 ^ 2 % 256 ≡ b = second_byte va t u t_six u_six ∙ omega (arith, k) in
    (
      vu,
      (
        2,
        (
          decode-char w 0 (a / 4) (alphabet_at t ∷ alphabet_at u ∷ []) s_six
              ∙ decode-char va 6 t (alphabet_at u ∷ []) t_six
              ∙ ap (put_byte (vt / 2 ^ 4 % 256)) (decode-char vt 4 u [] u_six)
              ∙ ap (λ d. put_byte (vt / 2 ^ 4 % 256) (put_byte (vu / 2 ^ 2 % 256) d))
                  (decode-nothing vu 2)
              ∙ ap
                  (λ x. put_byte x (
                    put_byte (vu / 2 ^ 2 % 256)
                      (some (record { bytes = []; buffer = vu; bits = 2 }))))
                  first
              ∙ ap (λ x. some (record { bytes = a ∷ x ∷ []; buffer = vu; bits = 2 })) second,
          omega arith,
        ),
      ),
    )

-- From a buffer without bits, the characters of the bytes are read, and their number is never 1 above a
-- multiple of 4.
loop-HasRead :
    (v w : ℕ) (bytes : List ℕ)
    → All IsByte bytes
    → HasRead bytes (decode_loop w 0 (encode_loop v 0 bytes))
      × ((length (encode_loop v 0 bytes) % 4 == 1) ≡ false)
loop-HasRead v w [] h = unfold encode_loop decode_loop in ((w, (0, (refl, omega arith))), refl)
loop-HasRead v w (a ∷ []) (ha, h) = rw (encode-one v a ha) (one-HasRead w a ha, refl)
loop-HasRead v w (a ∷ b ∷ []) (ha, (hb, h)) =
    rw (encode-two v a b ha hb) (two-HasRead w a b ha hb, refl)
loop-HasRead v w (a ∷ b ∷ c ∷ bytes) (ha, (hb, (hc, h))) =
    let (v', e) = encode-three v a b c bytes ha hb hc in
    rw e (
      four-HasRead w a b c (encode_loop v' 0 bytes) bytes ha hb hc
          (λ w'. (loop-HasRead v' w' bytes h).0),
      ground (arith, (loop-HasRead v' w bytes h).1),
    )

decode-accepts :
    (text bytes : List ℕ) (x n : ℕ)
    → (length text == 0) ≡ false
    → (length text % 4 == 1) ≡ false
    → decode_loop 0 0 text ≡ some (record { bytes = bytes; buffer = x; bits = n })
    → x % 2 ^ n ≡ 0
    → base64url_encode bytes ≡ text
    → base64url_decode text ≡ some bytes
unfolding base64url_decode
decode-accepts text bytes x n long count e z same =
    let canonical = (bytes_eq_iff (base64url_encode bytes) text).1 same in
    rw (long, count, e, z, canonical) (ground arith)

encode-ne-empty :
    (byte : ℕ) (input : List ℕ) → (length (base64url_encode (byte ∷ input)) == 0) ≡ false
unfolding base64url_encode encode_loop push_chars
encode-ne-empty byte input = ground arith

-- Bytes, one at least, that are written in base64 are read back: the decoder accepts the text and returns
-- them.
pub base64url_decode-encode :
    (byte : ℕ) (input : List ℕ)
    → All IsByte (byte ∷ input)
    → base64url_decode (base64url_encode (byte ∷ input)) ≡ some (byte ∷ input)
unfolding base64url_encode
base64url_decode-encode byte input h =
    let (read, count) = loop-HasRead 0 0 (byte ∷ input) h in
    let (x, (n, (e, z))) = read in
    decode-accepts (base64url_encode (byte ∷ input)) (byte ∷ input) x n (encode-ne-empty byte input)
      count e z refl
