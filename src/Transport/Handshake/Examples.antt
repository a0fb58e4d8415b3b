-- ===== src/Transport/Handshake/Examples.antt =====
-- A handshake on a byte stream, and its authorization.
use gemacast.Prelude.{
  ℕ, ◌≡◌, refl, List, [], ◌∷◌, ◌++◌, some, Bool, true, false, ◌&&◌, arith, ◌==◌, ok,
}
use gemacast.Prelude.Bytes.{IsBytes, to_be_bytes, le_bytes}
use gemacast.Prelude.Assoc.{Text, text_eq}
use gemacast.Control.Auth.{SessionAuthorizer, issue, next, pending_approval_ttl}
use gemacast.Transport.Handshake.{
  encode, write_field, read_adb_audio_handshake, authorize_adb_audio_handshake,
}
use gemacast.Transport.Handshake.RoundTrip.{read-encode, authorize-issue}

-- Every byte string below is ASCII.
abbrev is_ascii : Text → Bool
is_ascii t = true

abbrev device : Text
device = 80 ∷ 104 ∷ []

abbrev token : Text
token = 97 ∷ 98 ∷ 99 ∷ []

abbrev sent_bytes : List ℕ
sent_bytes = 1 ∷ 2 ∷ 80 ∷ 104 ∷ 3 ∷ 97 ∷ 98 ∷ 99 ∷ 0 ∷ 0 ∷ 0 ∷ 0 ∷ 0 ∷ 0 ∷ 1 ∷ 4 ∷ []

encodes : encode device token 260 ≡ ok sent_bytes
unfolding encode write_field to_be_bytes le_bytes
encodes = refl

read-encode_example :
    read_adb_audio_handshake is_ascii (sent_bytes ++ (0 ∷ 0 ∷ []))
    ≡ ok (record { device_id = device; session_token = token; generation = 260 }, 0 ∷ 0 ∷ [])
read-encode_example =
    read-encode is_ascii device token 260 sent_bytes (0 ∷ 0 ∷ []) encodes refl refl (omega arith)
      (omega arith)

token-IsBytes : IsBytes token
token-IsBytes = (omega arith, (omega arith, (omega arith, tt)))

-- A computer that has given out seven generations.
abbrev desk : SessionAuthorizer
desk = record {
  state = record {
    sessions = (device, record { token = token; generation = 7 }) ∷ [];
    pending = [];
    next_generation = 7;
  };
  pending_ttl = pending_approval_ttl;
  poisoned = false;
}

authorize-issue_example :
    authorize_adb_audio_handshake
      (issue desk device (some token)).0
      (record { device_id = device; session_token = token; generation = 8 })
    ≡ (text_eq token token && next desk.next_generation == 8)
authorize-issue_example = authorize-issue desk device token token 8 refl token-IsBytes token-IsBytes
