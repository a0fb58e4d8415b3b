-- ===== src/Transport/Handshake.antt =====
-- gemacast-core/src/stream/player/handshake.rs (the phone writes the handshake) and
-- network/adb/server.rs (the computer reads it and authorizes the phone). Device ids and tokens are
-- texts, given by their bytes. `std::str::from_utf8` is the argument `is_utf8`. The cursor of the
-- parser is the list of the bytes after it.
pub mod RoundTrip
mod Examples
use gemacast.Prelude.{
  ℕ, ◌+◌, ◌%◌, ◌^◌, ◌<◌, ◌≤◌, ◌≡◌, refl, sym, ap, ◌∙◌, List, [], ◌∷◌, ◌++◌, Option, none, some,
  Bool, true, false, not, ◌&&◌, ◌||◌, arith, ltb, leb, ◌==◌, if◌then◌else◌, length, take, drop,
  get_or, Result, ok, err, ◌>>=◌, Bool-cases, inl, inr,
}
use gemacast.Prelude.Bytes.{to_be_bytes, from_be_bytes}
use gemacast.Prelude.Assoc.{Text}
use gemacast.Audio.{
  ProtocolError, empty_adb_handshake_field, adb_handshake_field_too_long, HandshakeField,
  device_id_field, session_token_field,
}
use gemacast.Control.Auth.{SessionAuthorizer, AuthorizedSession, authenticate, is_current}

abbrev pub adb_handshake_version : ℕ
adb_handshake_version = 1

abbrev pub max_device_id_length : ℕ
max_device_id_length = 128

abbrev pub max_session_token_length : ℕ
max_session_token_length = 255

-- `write_field`: the bytes that it appends.
pub write_field : List ℕ → HandshakeField → ℕ → Result ProtocolError (List ℕ)
write_field value field max =
    if length value == 0
    then err (empty_adb_handshake_field field)
    else if ltb max (length value)
    then err (adb_handshake_field_too_long field (length value) max)
    else ok (length value % 256 ∷ value)

pub encode : Text → Text → ℕ → Result ProtocolError (List ℕ)
unfolding write_field
encode device_id session_token generation =
    write_field device_id device_id_field max_device_id_length >>= (λ device.
      write_field session_token session_token_field max_session_token_length
      >>= (λ token. ok ((adb_handshake_version ∷ device) ++ (token ++ to_be_bytes 8 generation))))

pub record AdbAudioHandshake : Type 0 where
  pub device_id : Text
  pub session_token : Text
  pub generation : ℕ

-- The texts with which the parser fails.
pub data HandshakeError : Type 0 where
  unsupported_version : HandshakeError
  missing_length invalid_length truncated not_utf8 : HandshakeField → HandshakeError
  missing_generation invalid_generation truncated_handshake : HandshakeError

pub parse_version : List ℕ → Result HandshakeError (List ℕ)
parse_version [] = err unsupported_version
parse_version (v ∷ rest) = if v == adb_handshake_version then ok rest else err unsupported_version

-- A length, and so many bytes. The bytes after the field come with it.
pub parse_field :
    (Text → Bool) → HandshakeField → ℕ → List ℕ → Result HandshakeError (Text × List ℕ)
parse_field is_utf8 field max [] = err (missing_length field)
parse_field is_utf8 field max (len ∷ rest) =
    if len == 0 || ltb max len
    then err (invalid_length field)
    else if ltb (length rest) len
    then err (truncated field)
    else if is_utf8 (take len rest)
    then ok (take len rest, drop len rest)
    else err (not_utf8 field)

pub parse_generation : List ℕ → Result HandshakeError ℕ
parse_generation rest =
    if ltb (length rest) 8
    then err missing_generation
    else if from_be_bytes (take 8 rest) == 0 || not (length (drop 8 rest) == 0)
    then err invalid_generation
    else ok (from_be_bytes (take 8 rest))

pub parse_adb_audio_handshake : (Text → Bool) → List ℕ → Result HandshakeError AdbAudioHandshake
unfolding parse_version parse_field parse_generation
parse_adb_audio_handshake is_utf8 bytes = parse_version bytes >>= (λ after_version.
    parse_field is_utf8 device_id_field max_device_id_length after_version
    >>= (λ (device, after_device).
        parse_field is_utf8 session_token_field max_session_token_length after_device
        >>= (λ (token, after_token). parse_generation after_token >>= (λ generation.
            ok (record { device_id = device; session_token = token; generation = generation })))))

-- The bytes that are read from the socket, before they are parsed, and what is left there. The socket
-- holds `stream` and then ends.
pub read_body : ℕ → ℕ → List ℕ → Result HandshakeError (List ℕ × List ℕ)
read_body device_len token_len stream =
    if token_len == 0 || ltb max_session_token_length token_len
    then err (invalid_length session_token_field)
    else if ltb (length stream) (2 + (device_len + 1) + (token_len + 8))
    then err truncated_handshake
    else ok (
      take (2 + (device_len + 1) + (token_len + 8)) stream,
      drop (2 + (device_len + 1) + (token_len + 8)) stream,
    )

pub read_bytes : List ℕ → Result HandshakeError (List ℕ × List ℕ)
unfolding read_body
read_bytes stream =
    if ltb (length stream) 2
    then err truncated_handshake
    else if get_or stream 1 0 == 0 || ltb max_device_id_length (get_or stream 1 0)
    then err (invalid_length device_id_field)
    else if ltb (length stream) (2 + (get_or stream 1 0 + 1))
    then err truncated_handshake
    else read_body (get_or stream 1 0) (get_or stream (2 + get_or stream 1 0) 0) stream

pub read_adb_audio_handshake :
    (Text → Bool) → List ℕ → Result HandshakeError (AdbAudioHandshake × List ℕ)
unfolding read_bytes parse_adb_audio_handshake
read_adb_audio_handshake is_utf8 stream = read_bytes stream >>= (λ (bytes, left).
    parse_adb_audio_handshake is_utf8 bytes >>= (λ handshake. ok (handshake, left)))

abbrev pub has_handshake_generation : ℕ → Option AuthorizedSession → Bool
has_handshake_generation g none = false
has_handshake_generation g (some s) = s.generation == g

pub authorize_adb_audio_handshake : SessionAuthorizer → AdbAudioHandshake → Bool
authorize_adb_audio_handshake a h =
    has_handshake_generation h.generation (authenticate a h.device_id h.session_token)
