-- ===== src/Stream/UdpSender/Examples.antt =====
-- A phone that gets one loud frame.
use gemacast.Prelude.{◌≡◌, arith, some, List, [], ◌∷◌, none, true}
use gemacast.Prelude.Addr.{SocketAddr}
use gemacast.Wire.Packet.{uncompressed}
use gemacast.Wire.Packet.Examples.{
  whole_numbers, whole_numbers-IsCodec, loud_frame, loud_packet, loud_encodes, loud_flag,
}
use gemacast.Stream.UdpSender.{
  CapturedFrame, Event, captured, due, inbound, taken, blocked, refused, Sender, Datagram,
  no_counters, send_chunks, new, step, run,
}
use gemacast.Audio.{RawPacket}
use gemacast.Wire.Packet.RoundTrip.{encode-IsFrame}
use gemacast.Wire.PcmDatagram.RoundTrip.{IsFrame}
use gemacast.Stream.PcmAssembly.{new as new_assembly}
use gemacast.Stream.UdpSender.Arrival.{all_taken, arrive, IsWhole, send_chunks-arrive}
use gemacast.Stream.UdpSender.Session.{OnlyTo, run-OnlyTo}

abbrev phone : SocketAddr
phone = record { ip = 10 ∷ 0 ∷ 0 ∷ 7 ∷ []; port = 4000 }

abbrev neighbour : SocketAddr
neighbour = record { ip = 10 ∷ 0 ∷ 0 ∷ 3 ∷ []; port = 4000 }

abbrev frame : CapturedFrame whole_numbers
frame = record { samples = loud_frame; position = 0; ready_at = 1_000 }

abbrev events : List (Event whole_numbers)
events =
    captured frame 2_000
    ∷ inbound (0xf1 ∷ 0x1e ∷ []) 2 neighbour
    ∷ due 3_000 (taken 978 ∷ taken 978 ∷ blocked ∷ [])
    ∷ captured frame 4_000
    ∷ []

run-OnlyTo_example :
    let r =
      run whole_numbers none uncompressed
        (new whole_numbers phone 0 1_700_000 1_700 1_000)
        events in
    OnlyTo phone r.1
    × ((step whole_numbers none uncompressed r.0 (due 5_000 (refused ∷ []))).0.running
        ≡ r.0.running)
run-OnlyTo_example =
    run-OnlyTo whole_numbers whole_numbers-IsCodec none uncompressed phone 0 1_700_000 1_700 1_000
      events 5_000 (refused ∷ [])

abbrev sender : Sender whole_numbers
sender = record (new whole_numbers phone 6 0 0 0) { packet = loud_packet; chunked = true }

loud_packet-IsFrame : IsFrame loud_packet
loud_packet-IsFrame =
    encode-IsFrame whole_numbers whole_numbers-IsCodec loud_frame none uncompressed 6 8000
      loud_packet loud_encodes loud_flag

send_chunks-arrive_example :
    let r = send_chunks whole_numbers 4 0 sender no_counters all_taken in
    (r.complete ≡ true)
    × (d0 : Datagram) × (d1 : Datagram) × (d2 : Datagram) × (d3 : Datagram) × (r.datagrams
        ≡ d0 ∷ d1 ∷ d2 ∷ d3 ∷ [])
    × (let a1 = arrive new_assembly d0 10 in
        let a2 = arrive a1.0 d1 20 in
        let a3 = arrive a2.0 d2 30 in
        let a4 = arrive a3.0 d3 40 in
        (a1.1 ≡ none)
        × (a2.1 ≡ none)
        × (a3.1 ≡ none)
        × ((p : RawPacket) × (a4.1 ≡ some p) × IsWhole loud_packet p))
send_chunks-arrive_example =
    send_chunks-arrive whole_numbers sender no_counters 10 20 30 40 loud_packet-IsFrame
      (omega arith) (omega arith, omega arith, omega arith)
