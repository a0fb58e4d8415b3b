-- ===== src/Transport/Handshake/RoundTrip.antt =====
-- The handshake that the phone writes, at the reader of the computer.
use gemacast.Prelude.{
  ℕ, ◌+◌, ◌^◌, ◌<◌, ◌≤◌, ◌≡◌, refl, sym, ap, ◌∙◌, subst, List, [], ◌∷◌, ◌++◌, some, Bool, true,
  false, ◌&&◌, arith, ◌==◌, length, take, drop, get_or, Result, ok, err, ◌>>=◌, Option-cases, inl,
  inr, take_at, drop_at, length-append, get_or_at,
}
use mathlib.Core.List.{append_assoc}
use gemacast.Prelude.Bytes.{
  IsBytes, le_bytes, to_be_bytes, length-to_be_bytes, from_be_bytes-to_be_bytes,
}
use gemacast.Prelude.Assoc.{Text, text_eq, text_eq_refl}
use gemacast.Audio.{ProtocolError, HandshakeField, device_id_field, session_token_field}
use gemacast.Control.Auth.{SessionAuthorizer, authenticate, is_current, issue, next}
use gemacast.Control.Auth.Sessions.{issue_effect, authenticate-is_current}
use gemacast.Transport.Handshake.{
  write_field, encode, AdbAudioHandshake, parse_version, parse_field, parse_generation,
  parse_adb_audio_handshake, read_body, read_bytes, read_adb_audio_handshake,
  authorize_adb_audio_handshake, adb_handshake_version,
}

-- The bytes of a handshake.
abbrev bytes_of : Text → Text → ℕ → List ℕ
bytes_of device token generation =
    adb_handshake_version
    ∷ (length device ∷ (device ++ (length token ∷ (token ++ to_be_bytes 8 generation))))

-- What `write_field` lets through.
record IsField (value : Text) (max : ℕ) : Type 0 where
  some_bytes : 0 < length value
  fits : length value ≤ max

write_field-ok :
    (value : Text) (field : HandshakeField) (max : ℕ) (out : List ℕ)
    → max ≤ 255
    → write_field value field max ≡ ok out
    → IsField value max × (out ≡ length value ∷ value)
unfolding write_field
write_field-ok value field max out small e =
    (record { some_bytes = ground arith; fits = ground arith }, ground arith)

ok_of_bind :
    {A B : Type 0} (r : Result ProtocolError A) (f : A → Result ProtocolError B) (b : B)
    → (r >>= f) ≡ ok b
    → (a : A) × (r ≡ ok a) × (f a ≡ ok b)
ok_of_bind (ok a) f b e = (a, refl, e)
ok_of_bind (err x) f b e = cc

abbrev written : List ℕ → Result ProtocolError (List ℕ)
written b = ok b

written_value : (a b : List ℕ) → written a ≡ written b → a ≡ b
written_value a b e = cc

joined :
    (device token x y : List ℕ) (generation : ℕ) (out : List ℕ)
    → x ≡ length device ∷ device
    → y ≡ length token ∷ token
    → written ((1 ∷ x) ++ (y ++ to_be_bytes 8 generation)) ≡ written out
    → out ≡ bytes_of device token generation
joined device token x y generation out ex ey e =
    sym (written_value _ out e)
    ∙ ap (λ t. (1 ∷ x) ++ (t ++ to_be_bytes 8 generation)) ey
    ∙ ap (λ t. (1 ∷ t) ++ ((length token ∷ token) ++ to_be_bytes 8 generation)) ex

encode-bytes_of :
    (device token : Text) (generation : ℕ) (out : List ℕ)
    → encode device token generation ≡ ok out
    → IsField device 128 × IsField token 255 × (out ≡ bytes_of device token generation)
unfolding encode
encode-bytes_of device token generation out e =
    let (x, ex, e') = ok_of_bind (write_field device device_id_field 128) _ out e in
    let (y, ey, e'') = ok_of_bind (write_field token session_token_field 255) _ out e' in
    let (fd, xd) = write_field-ok device device_id_field 128 x (omega arith) ex in
    let (ft, yt) = write_field-ok token session_token_field 255 y (omega arith) ey in
    (fd, ft, joined device token x y generation out xd yt e'')

parse_field_lem :
    (is_utf8 : Text → Bool) (field : HandshakeField) (max : ℕ) (value rest : List ℕ)
    → IsField value max
    → is_utf8 value ≡ true
    → parse_field is_utf8 field max (length value ∷ (value ++ rest)) ≡ ok (value, rest)
unfolding parse_field
parse_field_lem is_utf8 field max value rest f u =
    let cut : take (length value) (value ++ rest) ≡ value =
      take_at value rest (length value) refl refl in
    let left : drop (length value) (value ++ rest) ≡ rest =
      drop_at value rest (length value) refl refl in
    rw (cut, left, u) (ground (arith, f.some_bytes, f.fits, length-append value rest))

eight_bytes : (g : ℕ) → take 8 (to_be_bytes 8 g) ≡ to_be_bytes 8 g
unfolding take to_be_bytes le_bytes
eight_bytes g = refl

no_more_bytes : (g : ℕ) → drop 8 (to_be_bytes 8 g) ≡ []
unfolding drop to_be_bytes le_bytes
no_more_bytes g = refl

parse_generation_lem : (g : ℕ) → 0 < g → g < 256 ^ 8 → parse_generation (to_be_bytes 8 g) ≡ ok g
unfolding parse_generation
parse_generation_lem g pos fits =
    rw (eight_bytes g, from_be_bytes-to_be_bytes 8 g fits)
      (ground (arith, length-to_be_bytes 8 g, ap length (no_more_bytes g)))

-- The parser gives back what was encoded: the device id and the token, if they are UTF-8, and the
-- generation, if it is a `u64` other than zero.
pub parse-encode :
    (is_utf8 : Text → Bool) (device token : Text) (generation : ℕ) (out : List ℕ)
    → encode device token generation ≡ ok out
    → is_utf8 device ≡ true
    → is_utf8 token ≡ true
    → 0 < generation
    → generation < 256 ^ 8
    → parse_adb_audio_handshake is_utf8 out
      ≡ ok (record { device_id = device; session_token = token; generation = generation })
unfolding parse_adb_audio_handshake parse_version
parse-encode is_utf8 device token generation out e ud ut pos fits =
    let (fd, ft, eo) = encode-bytes_of device token generation out e in
    rw
      (
        eo,
        parse_field_lem is_utf8 device_id_field 128 device
            (length token ∷ (token ++ to_be_bytes 8 generation)) fd ud,
        parse_field_lem is_utf8 session_token_field 255 token (to_be_bytes 8 generation) ft ut,
        parse_generation_lem generation pos fits,
      )
      refl

-- Reading so many bytes as the two lengths in them ask for.
read_bytes_of_lengths :
    (stream bytes rest : List ℕ) (n m : ℕ)
    → get_or stream 1 0 ≡ n
    → get_or stream (2 + n) 0 ≡ m
    → (0 < n) × (n ≤ 128)
    → (0 < m) × (m ≤ 255)
    → stream ≡ bytes ++ rest
    → length bytes ≡ 2 + (n + 1) + (m + 8)
    → read_bytes stream ≡ ok (bytes, rest)
unfolding read_bytes read_body
read_bytes_of_lengths stream bytes rest n m en em hn hm es el =
    let cut : take (2 + (n + 1) + (m + 8)) stream ≡ bytes = take_at bytes rest _ es el in
    let left : drop (2 + (n + 1) + (m + 8)) stream ≡ rest = drop_at bytes rest _ es el in
    let long : 2 + (n + 1) + (m + 8) ≤ length stream =
      omega (arith, ap length es, length-append bytes rest) in
    rw (en, em, cut, left) (ground (arith, long, hn.0, hn.1, hm.0, hm.1))

length-bytes_of :
    (device token : List ℕ) (g : ℕ)
    → length (bytes_of device token g) ≡ 2 + (length device + 1) + (length token + 8)
length-bytes_of device token g = omega (
  arith,
  length-append device (length token ∷ (token ++ to_be_bytes 8 g)),
  length-append token (to_be_bytes 8 g),
  length-to_be_bytes 8 g,
)

read_bytes_lem :
    (device token rest : List ℕ) (g : ℕ)
    → IsField device 128
    → IsField token 255
    → read_bytes (bytes_of device token g ++ rest) ≡ ok (bytes_of device token g, rest)
read_bytes_lem device token rest g fd ft =
    let n = length device in
    let m = length token in
    let tail = token ++ to_be_bytes 8 g in
    read_bytes_of_lengths (bytes_of device token g ++ rest) (bytes_of device token g) rest n m
      (get_or_at (1 ∷ []) (((device ++ (m ∷ tail)) ++ rest)) n 0 1 refl refl)
      (get_or_at (1 ∷ (n ∷ device)) (tail ++ rest) m 0 (2 + n)
        (ap (λ t. 1 ∷ (n ∷ t)) (append_assoc device (m ∷ tail) rest)) (omega arith))
      (fd.some_bytes, fd.fits) (ft.some_bytes, ft.fits) refl (length-bytes_of device token g)

-- The computer reads the handshake that the phone wrote, whatever follows it on the stream, and leaves
-- what follows for the audio. The device id and the token are UTF-8, and the generation is a `u64`
-- other than zero.
pub read-encode :
    (is_utf8 : Text → Bool) (device token : Text) (generation : ℕ) (out rest : List ℕ)
    → encode device token generation ≡ ok out
    → is_utf8 device ≡ true
    → is_utf8 token ≡ true
    → 0 < generation
    → generation < 256 ^ 8
    → read_adb_audio_handshake is_utf8 (out ++ rest)
      ≡ ok (record { device_id = device; session_token = token; generation = generation }, rest)
unfolding read_adb_audio_handshake
read-encode is_utf8 device token generation out rest e ud ut pos fits =
    let (fd, ft, eo) = encode-bytes_of device token generation out e in
    let parsed = parse-encode is_utf8 device token generation out e ud ut pos fits in
    let got : read_bytes (out ++ rest) ≡ ok (out, rest) =
      subst (λ b. read_bytes (b ++ rest) ≡ ok (b, rest)) (sym eo)
        (read_bytes_lem device token rest generation fd ft) in
    rw (got, parsed) refl

-- After a session was issued to a device, with the lock healthy and tokens of bytes, the device is
-- authorized exactly with the token and under the generation that were issued.
pub authorize-issue :
    (a : SessionAuthorizer) (device token presented : Text) (g : ℕ)
    → a.poisoned ≡ false
    → IsBytes token
    → IsBytes presented
    → authorize_adb_audio_handshake
        (issue a device (some token)).0
        (record { device_id = device; session_token = presented; generation = g })
      ≡ (text_eq token presented && next a.next_generation == g)
unfolding authorize_adb_audio_handshake
authorize-issue a device token presented g up bt bp =
    rw ((issue_effect a device token up bt).1 device presented bp, text_eq_refl device)
      (ground arith)

-- A phone is authorized only under the generation that is current for its device.
pub authorize-is_current :
    (a : SessionAuthorizer) (h : AdbAudioHandshake)
    → authorize_adb_audio_handshake a h ≡ true
    → is_current a h.device_id h.generation ≡ true
unfolding authorize_adb_audio_handshake
authorize-is_current a h e = elim (Option-cases (authenticate a h.device_id h.session_token)) [
  | inl n ↦ absurd (ground (arith, n))
  | inr (s, f) ↦ ground (arith, f, authenticate-is_current a h.device_id h.session_token s f)
]
