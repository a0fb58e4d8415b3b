-- ===== src/Stream/Receiver/Encoded.antt =====
-- From the sender's encoder to the player's ring buffer.
use gemacast.Prelude.{
  ℕ, ◌*◌, ◌^◌, ◌≤◌, ◌<◌, ◌≡◌, List, [], ◌∷◌, ◌++◌, Option, some, true, false, not, ◌&&◌, arith, ltb,
  ◌==◌, if_elim, ap, ◌∙◌, subst, sym, ok, length, take, drop, get_or,
}
use mathlib.Core.List.{append_assoc}
use gemacast.Prelude.Addr.{SocketAddr}
use gemacast.Audio.{RawPacket, max_packet_payload}
use gemacast.Wire.Packet.{Codec, AudioBitrate, encode, decode, wire_packet, is_silent_frame}
use gemacast.Wire.Packet.RoundTrip.{
  IsCodec, decode-encode_packet, encode-Carries, is_silence_flag, flag_of,
}
use gemacast.Stream.Echo.{matches, matches-wire_packet}
use gemacast.Stream.PcmAssembly.{PcmAssembly}
use gemacast.Stream.Receiver.{
  Config, Receiver, Round, Effect, packet, top, is_unexpected, decoded, arrived, play_maybe,
  assemble, hear, handle, step,
}
use gemacast.Stream.Receiver.Audio.{enqueued, enqueued-play, enqueued-after_ip, only_packet, plays}

plays_heard :
    (r : Receiver) (round : Round) (pkt : RawPacket)
    → pkt.is_silence ≡ false
    → round.user_wants_playing ≡ true
    → round.room ≡ true
    → plays r round pkt ≡ true
plays_heard r round pkt heard wants has_room = ground (arith, heard, wants, has_room)

assemble_plain :
    (a : PcmAssembly) (buffer : List ℕ) (len later : ℕ) (pkt : RawPacket)
    → get_or buffer 8 0 ≤ 2
    → decode buffer len later ≡ ok pkt
    → assemble a buffer len later ≡ (a, some pkt)
unfolding assemble
assemble_plain a buffer len later pkt flag dec =
    if_elim (λ (q : PcmAssembly × Option RawPacket). q ≡ (a, some pkt))
      (ltb 8 len && get_or buffer 8 0 == 3) _ _ (λ t. absurd (ground (arith, t, flag)))
      (λ _ i. (a, decoded (dec i)))

enqueues_it :
    (c : Config) (r : Receiver) (round : Round) (buffer : List ℕ) (len : ℕ) (from : SocketAddr)
    (pkt : RawPacket)
    → r.running ≡ true
    → round.active ≡ true
    → round.result ≡ packet buffer len from
    → is_unexpected c.allowed_streamer_ip from ≡ false
    → matches buffer len ≡ false
    → get_or buffer 8 0 ≤ 2
    → decode buffer len round.later ≡ ok pkt
    → pkt.is_silence ≡ false
    → round.user_wants_playing ≡ true
    → round.room ≡ true
    → enqueued (step c r round).1 ≡ pkt ∷ []
unfolding step handle hear
enqueues_it c r round buffer len from pkt on act got expected echo flag dec heard wants has_room =
    let r0 = top r round.now in
    let r' = arrived r0 len from round.later in
    let made = assemble r'.pcm_assembly buffer len round.later in
    let r'' : Receiver = record r' { pcm_assembly = r'.pcm_assembly } in
    let Good = λ (q : Receiver × List Effect). enqueued q.1 ≡ pkt ∷ [] in
    if_elim Good (not r.running) _ _ (λ off. absurd (ground (arith, on, off)))
      (λ _.
        if_elim Good round.active _ _
          (λ _.
            subst (λ x. Good (handle c r0 round x)) (sym got)
              (if_elim Good (is_unexpected c.allowed_streamer_ip from) _ _
                (λ t. absurd (ground (arith, t, expected)))
                (λ _.
                  if_elim Good (matches buffer len) _ _ (λ t. absurd (ground (arith, t, echo)))
                    (λ _.
                      enqueued-after_ip r0.streamer_ip_pending from.ip (play_maybe c r' round made)
                      ∙ ap (λ q. enqueued (play_maybe c r' round q).1)
                          (assemble_plain r'.pcm_assembly buffer len round.later pkt flag dec)
                      ∙ enqueued-play c r'' round pkt
                      ∙ ap (λ b. only_packet b pkt)
                          (plays_heard r'' round pkt heard wants has_room)))))
          (λ off. absurd (ground (arith, act, off))))

module _ (k : Codec) (valid : IsCodec k) where
  -- A packet of the encoder is neither an echo nor a datagram of a larger packet.
  wire_shape :
      (frame : List k.F32) (e : Option k.Encoder) (rate : AudioBitrate) (seq room : ℕ)
      (p rest : List ℕ)
      → encode k frame e rate seq room ≡ ok p
      → seq < 0xf11e * 2 ^ 48
      → (matches (p ++ rest) (length p) ≡ false) × (get_or (p ++ rest) 8 0 ≤ 2)
  unfolding wire_packet
  wire_shape frame e rate seq room p rest h small =
      let (hl, flag, payload, ep, c) = encode-Carries k valid frame e rate seq room p h in
      let (known, _, _) = is_silence_flag k valid frame rate c in
      let whole : p ++ rest ≡ wire_packet k seq flag (payload ++ rest) =
        ap (λ q. q ++ rest) ep ∙ append_assoc _ (flag ∷ payload) rest in
      (
        ap (λ b. matches b (length p)) whole
            ∙ matches-wire_packet k seq flag (payload ++ rest) (length p) small,
        omega (
          arith,
          known,
          ap (λ b. get_or b 8 0) whole ∙ flag_of k valid seq flag (payload ++ rest),
        ),
      )

  -- What the sender's encoder writes for a frame that is not silent reaches the player's ring
  -- buffer: a running and active receiver that gets the packet from the expected sender, while the user wants
  -- to play and the ring buffer has room, enqueues exactly one packet, with the sequence number and
  -- the payload that were encoded. The codec is as for the decoder, and the sequence number is below
  -- 0xf11e * 2 ^ 48.
  pub step-encode :
      (frame : List k.F32) (e : Option k.Encoder) (rate : AudioBitrate) (seq room : ℕ)
      (p rest : List ℕ) (c : Config) (r : Receiver) (round : Round) (from : SocketAddr)
      → encode k frame e rate seq room ≡ ok p
      → is_silent_frame k frame ≡ false
      → seq < 0xf11e * 2 ^ 48
      → room ≤ max_packet_payload
      → r.running ≡ true
      → round.active ≡ true
      → round.result ≡ packet (p ++ rest) (length p) from
      → is_unexpected c.allowed_streamer_ip from ≡ false
      → round.user_wants_playing ≡ true
      → round.room ≡ true
      → (pkt : RawPacket) × (enqueued (step c r round).1 ≡ pkt ∷ [])
        × (pkt.seq_num ≡ seq)
        × (take pkt.payload_len pkt.payload_data ≡ drop 9 p)
  step-encode frame e rate seq room p rest c r round from h loud small hr on act got expected wants
        has_room =
      let (echo, flag) = wire_shape frame e rate seq room p rest h small in
      let (pkt, dec, num, bytes, quiet, pcm) =
        decode-encode_packet k valid frame e rate seq room round.later p rest h
          (omega (arith, small)) hr in
      let heard : pkt.is_silence ≡ false = quiet ∙ loud in
      (
        pkt,
        enqueues_it c r round (p ++ rest) (length p) from pkt on act got expected echo flag dec
            heard wants has_room,
        num,
        bytes,
      )
