-- ===== src/Pagination/Tests.antt =====
-- Tests of the page tokens over a toy cipher and codec, and instances of the theorems.
use finokit.Base.{
  ℕ, ◌⊎◌, suc, zero, ◌≡◌, refl, [], ◌∷◌, ◌++◌, Option, none, some, ℤ, pos, negsuc, ok, err, Text,
  text, length, take, drop, take-append, drop-append, arith, ap, ◌≤ℤ◌, text_eq,
}
use finokit.Pagination.Cursor.{
  Bytes, Cursor, Aead, codec_of, Services, Random, invalid_page_token, invalid_page_size, encode,
  decode, encode_offset, decode_offset, encode_keyset, bind_scope, new_cursor_codec, key_length,
}
use finokit.Pagination.Cursor.RoundTrip.{CodecLaws, CipherLaws, FillsBuffer}
use finokit.Pagination.Cursor.Rejects.{Spells, decode_sound}
use finokit.Pagination.Page.{normalize_page_size, resolve}
use finokit.Pagination.Page.Requests.{normalize_page_size_lem, resolve-encode_offset}

-- A toy cipher: the sealed text is the nonce's length, the payload and nothing else.
toy_open : Bytes → Bytes → Option Bytes
toy_open n [] = none
toy_open n (zero ∷ p) = some p
toy_open n (suc k ∷ p) = none

abbrev toy : Aead
toy = record { nonce_size = 2; seal = λ n p. 0 ∷ p; unseal = toy_open }

toy_sign : ℤ → Bytes
toy_sign (pos n) = 0 ∷ n ∷ []
toy_sign (negsuc n) = 1 ∷ n ∷ []

toy_bytes : ℤ → Text → Text → Bytes
unfolding toy_sign
toy_bytes o p b = toy_sign o ++ length p ∷ (p ++ b)

toy_marshal : Cursor → Bytes
unfolding toy_bytes
toy_marshal c = toy_bytes c.offset c.position c.binding

toy_parse : ℤ → Bytes → Option Cursor
toy_parse o [] = none
toy_parse o (k ∷ b) = some (record { offset = o; position = take k b; binding = drop k b })

toy_unmarshal : Bytes → Option Cursor
unfolding toy_parse
toy_unmarshal (zero ∷ n ∷ b) = toy_parse (pos n) b
toy_unmarshal (suc zero ∷ n ∷ b) = toy_parse (negsuc n) b
toy_unmarshal _ = none

abbrev services : Services
services = record {
  Scope = Text;
  Block = Bytes;
  new_cipher = some;
  new_gcm = λ _. some toy;
  marshal = λ c. some (toy_marshal c);
  unmarshal = toy_unmarshal;
  marshal_scope = λ n v. some (n ++ v);
  sha256 = λ b. b;
  base64_url = λ b. b;
  base64_url_decode = some;
  base64_std_decode = some;
  base64_raw_std_decode = some;
}

toy_fields :
    (o : ℤ) (p b : Text)
    → toy_unmarshal (toy_bytes o p b) ≡ some (record { offset = o; position = p; binding = b })
unfolding toy_unmarshal toy_bytes
toy_fields (pos n) p b = rw (take-append p b refl, drop-append p b refl)
toy_fields (negsuc n) p b = rw (take-append p b refl, drop-append p b refl)

services_laws : CodecLaws services
unfolding toy_marshal
services_laws = record {
  unmarshal-marshal = λ c p e. cc (toy_fields c.offset c.position c.binding);
  decode-base64 = λ b. refl;
  decode-nil = refl;
}

toy_laws : CipherLaws toy
unfolding toy_open
toy_laws = record { nonce_pos = omega arith; unseal-seal = λ n p e. refl }

opened-IsSealed : (n c p : Bytes) → toy_open n c ≡ some p → c ≡ 0 ∷ p
unfolding toy_open
opened-IsSealed n [] p h = cc
opened-IsSealed n (zero ∷ c) p h = cc
opened-IsSealed n (suc k ∷ c) p h = cc

buffer : ℕ → Bytes
buffer zero = []
buffer (suc n) = 7 ∷ buffer n

length-buffer : (n : ℕ) → length (buffer n) ≡ n
unfolding buffer
length-buffer zero = refl
length-buffer (suc n) = ap suc (length-buffer n)

abbrev random : Random
random n = some (buffer n)

random-fills : FillsBuffer random
random-fills n b e = cc (length-buffer n)

abbrev users : Text
users = text "users"

offset_token :
    encode_offset services (some (codec_of toy)) random (pos 12) users
    ≡ ok (7 ∷ 7 ∷ 0 ∷ 0 ∷ 12 ∷ 0 ∷ users)
unfolding encode_offset encode toy_marshal toy_bytes buffer
offset_token = refl

keyset_token :
    encode_keyset services (some (codec_of toy)) random (text "u9") users
    ≡ ok (7 ∷ 7 ∷ 0 ∷ 0 ∷ 0 ∷ 2 ∷ text "u9" ++ users)
unfolding encode_keyset encode toy_marshal toy_bytes buffer
keyset_token = refl

empty_token : decode_offset services (some (codec_of toy)) [] users ≡ ok (pos 0)
unfolding decode_offset
empty_token = refl

nil_codec : decode_offset services none (5 ∷ []) users ≡ err invalid_page_token
unfolding decode_offset decode
nil_codec = refl

short_key : new_cursor_codec services (buffer 31) ≡ err key_length
unfolding new_cursor_codec buffer
short_key = refl

abbrev twelfth : Cursor
twelfth = record { offset = pos 12; position = []; binding = users }

twelfth_decodes :
    decode services (some (codec_of toy)) (7 ∷ 7 ∷ 0 ∷ 0 ∷ 12 ∷ 0 ∷ users) users ≡ ok twelfth
unfolding decode toy_open toy_unmarshal text_eq
twelfth_decodes = refl

decode_sound_example :
    Spells services toy (7 ∷ 7 ∷ 0 ∷ 0 ∷ 12 ∷ 0 ∷ users) twelfth
    × (pos 0 ≤ℤ pos 12)
    × (users ≡ users)
decode_sound_example =
    decode_sound services toy opened-IsSealed (7 ∷ 7 ∷ 0 ∷ 0 ∷ 12 ∷ 0 ∷ users) users twelfth
      twelfth_decodes

normalize_page_size_lem_example :
    ((pos 0 ≤ℤ negsuc 0) × (normalize_page_size (pos 0) ≡ err invalid_page_size))
    ⊎ ((pos 0 ≡ pos 0) × (normalize_page_size (pos 0) ≡ ok (pos 50)))
    ⊎ ((pos 1 ≤ℤ pos 0) × (pos 0 ≤ℤ pos 1000) × (normalize_page_size (pos 0) ≡ ok (pos 0)))
    ⊎ ((pos 1001 ≤ℤ pos 0) × (normalize_page_size (pos 0) ≡ ok (pos 1000)))
normalize_page_size_lem_example = normalize_page_size_lem (pos 0)

users_bound : bind_scope services (text "us") (text "ers") ≡ ok users
unfolding bind_scope
users_bound = refl

resolve-encode_offset_example :
    (size : ℤ) × (normalize_page_size (pos 25) ≡ ok size)
    × (resolve services
          (some (codec_of toy))
          (7 ∷ 7 ∷ 0 ∷ 0 ∷ 12 ∷ 0 ∷ users)
          (pos 25)
          (text "us")
          (text "ers")
        ≡ ok (pos 12, size, users))
resolve-encode_offset_example =
    resolve-encode_offset services services_laws toy toy_laws random random-fills (text "us")
      (text "ers") users _ (pos 12) (pos 25) users_bound offset_token (omega arith)

resolved :
    resolve services
      (some (codec_of toy))
      (7 ∷ 7 ∷ 0 ∷ 0 ∷ 12 ∷ 0 ∷ users)
      (pos 0)
      (text "us")
      (text "ers")
    ≡ ok (pos 12, pos 50, users)
unfolding resolve bind_scope decode_offset decode toy_open toy_unmarshal text_eq normalize_page_size
resolved = refl
