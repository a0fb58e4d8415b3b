-- ===== src/Transport/Framer.antt =====
-- gemacast-core/src/network/adb/framer.rs (packets to a byte stream) and adapters/transport.rs (a byte
-- stream to packets). What the socket holds for reading is a list of bytes; `read_exact` fails when
-- the stream ends before the bytes are there.
mod Examples
use gemacast.Prelude.{
  ℕ, zero, suc, ◌+◌, ◌%◌, ◌^◌, ◌<◌, ◌≤◌, ◌≡◌, refl, sym, ap, ◌∙◌, List, [], ◌∷◌, ◌++◌, Option, none,
  some, Bool, true, false, not, arith, ltb, leb, ◌==◌, if◌then◌else◌, length, take, drop,
  length-append, take_at, drop_at, length-take, length-drop,
}
use mathlib.Core.List.{append_assoc, append-nil}
use gemacast.Prelude.Bytes.{
  to_be_bytes, from_be_bytes, length-to_be_bytes, from_be_bytes-to_be_bytes,
}

pub record TcpAudioFramer : Type 0 where
  pub batch : List ℕ

pub new : TcpAudioFramer
new = record { batch = [] }

-- `payload.len() as u32`
pub append_packet : TcpAudioFramer → List ℕ → TcpAudioFramer
append_packet f payload = record {
  batch = f.batch ++ (to_be_bytes 4 (length payload % 2 ^ 32) ++ payload);
}

pub has_pending : TcpAudioFramer → Bool
has_pending f = not (length f.batch == 0)

pub clear : TcpAudioFramer → TcpAudioFramer
clear f = record { batch = [] }

-- `written` says whether `write_all` and `flush` of the socket succeed. The bytes are those that the
-- socket was given in full.
pub flush : TcpAudioFramer → Bool → TcpAudioFramer × Option (List ℕ)
flush f written =
    if length f.batch == 0
    then (f, some [])
    else if written
    then (record { batch = [] }, some f.batch)
    else (f, none)

pub data ReceiveError : Type 0 where
  unexpected_eof packet_too_large : ReceiveError

pub data Received : Type 0 where
  packet : (bytes left : List ℕ) → Received
  failed : ReceiveError → Received

abbrev pub receive_body : ℕ → ℕ → List ℕ → Received
receive_body room len body =
    if ltb room len
    then failed packet_too_large
    else if ltb (length body) len
    then failed unexpected_eof
    else packet (take len body) (drop len body)

-- Into a buffer of `room` bytes. The stream is of no use after a failure.
pub receive_audio_packet : ℕ → List ℕ → Received
receive_audio_packet room stream =
    if ltb (length stream) 4
    then failed unexpected_eof
    else receive_body room (from_be_bytes (take 4 stream)) (drop 4 stream)

unfoldable pub framed : TcpAudioFramer → List (List ℕ) → TcpAudioFramer
framed f [] = f
framed f (p ∷ ps) = framed (append_packet f p) ps

-- The packets that so many receives give, as long as none fails, and the stream after them.
abbrev pub with_packet : List ℕ → List (List ℕ) × List ℕ → List (List ℕ) × List ℕ
with_packet p (ps, left) = (p ∷ ps, left)

abbrev pub go_on : Received → (List ℕ → List (List ℕ) × List ℕ) → List (List ℕ) × List ℕ
go_on (packet p left) next = with_packet p (next left)
go_on (failed e) next = ([], [])

unfoldable pub receives : ℕ → ℕ → List ℕ → List (List ℕ) × List ℕ
receives room zero stream = ([], stream)
receives room (suc n) stream = go_on (receive_audio_packet room stream) (receives room n)

-- The frames of some packets, one after the other.
unfoldable pub frames : List (List ℕ) → List ℕ
frames [] = []
frames (p ∷ ps) = (to_be_bytes 4 (length p % 2 ^ 32) ++ p) ++ frames ps

abbrev pub AllFit : ℕ → List (List ℕ) → Type 0
AllFit room [] = Unit {0}
AllFit room (p ∷ ps) = (length p ≤ room) × AllFit room ps

framed-frames :
    (f : TcpAudioFramer) (ps : List (List ℕ)) → (framed f ps).batch ≡ f.batch ++ frames ps
unfolding framed frames append_packet
framed-frames f [] = sym (append-nil f.batch)
framed-frames f (p ∷ ps) =
    framed-frames (append_packet f p) ps
    ∙ append_assoc f.batch (to_be_bytes 4 (length p % 2 ^ 32) ++ p) (frames ps)

lt→ltb_false : (a b : ℕ) → b ≤ a → ltb a b ≡ false
lt→ltb_false a b h = ground arith

received_body :
    (room : ℕ) (p rest : List ℕ)
    → length p ≤ room
    → receive_body room (length p) (p ++ rest) ≡ packet p rest
received_body room p rest h =
    rw
      (
        lt→ltb_false room (length p) h,
        lt→ltb_false (length (p ++ rest)) (length p) (omega (arith, length-append p rest)),
        take_at p rest (length p) refl refl,
        drop_at p rest (length p) refl refl,
      )
      refl

receive_frame :
    (room : ℕ) (p rest : List ℕ)
    → length p ≤ room
    → room < 2 ^ 32
    → receive_audio_packet room ((to_be_bytes 4 (length p % 2 ^ 32) ++ p) ++ rest) ≡ packet p rest
unfolding receive_audio_packet
receive_frame room p rest h hr =
    let head = to_be_bytes 4 (length p % 2 ^ 32) in
    let four = length-to_be_bytes 4 (length p % 2 ^ 32) in
    let cut = append_assoc head p rest in
    let len : from_be_bytes (take 4 ((head ++ p) ++ rest)) ≡ length p =
      ap from_be_bytes (take_at head (p ++ rest) 4 cut four)
      ∙ from_be_bytes-to_be_bytes 4 (length p % 2 ^ 32) (omega arith)
      ∙ omega arith in
    let body : drop 4 ((head ++ p) ++ rest) ≡ p ++ rest = drop_at head (p ++ rest) 4 cut four in
    let long : ltb (length ((head ++ p) ++ rest)) 4 ≡ false =
      ground (arith, ap length cut, length-append head (p ++ rest), four) in
    rw (long, len, body) (received_body room p rest h)

pub receives-frames :
    (room : ℕ) (ps : List (List ℕ)) (rest : List ℕ)
    → AllFit room ps
    → room < 2 ^ 32
    → receives room (length ps) (frames ps ++ rest) ≡ (ps, rest)
unfolding receives frames
receives-frames room [] rest h hr = refl
receives-frames room (p ∷ ps) rest h hr =
    ap (λ s. go_on (receive_audio_packet room s) (receives room (length ps)))
      (append_assoc (to_be_bytes 4 (length p % 2 ^ 32) ++ p) (frames ps) rest)
    ∙ ap (λ r. go_on r (receives room (length ps)))
        (receive_frame room p (frames ps ++ rest) h.0 hr)
    ∙ ap (with_packet p) (receives-frames room ps rest h.1 hr)

framed-new : (ps : List (List ℕ)) → (framed new ps).batch ≡ frames ps
unfolding new
framed-new ps = framed-frames new ps

-- The packets that were appended to a new framer come out of the stream one by one and unchanged,
-- in order, with nothing left of the batch, whatever follows it, if each fits the receiver's buffer
-- of less than 2 ^ 32 bytes.
pub receives-framed :
    (room : ℕ) (ps : List (List ℕ)) (rest : List ℕ)
    → AllFit room ps
    → room < 2 ^ 32
    → receives room (length ps) ((framed new ps).batch ++ rest) ≡ (ps, rest)
receives-framed room ps rest h hr =
    ap (λ b. receives room (length ps) (b ++ rest)) (framed-new ps)
    ∙ receives-frames room ps rest h hr
