-- ===== src/Lib.antt =====
-- gemacast streams the sound of a computer to phones. This library models the program's Rust core in
-- antt, and proves what it promises of packets, buffering and authorization.
--
-- How the parts interact. The streamer cuts captured sound into frames of 480 stereo samples (10 ms)
-- and writes each as a wire packet (sequence number, format flag, payload). Over UDP a packet of raw
-- PCM is sent as four datagrams, any other as itself. The player decodes the datagrams, and puts the
-- packets into the jitter buffer, from which the audio callback pops them in order. A phone may do so
-- only with a session, which the computer's session authorizer gives out after an approval; a phone
-- that the computer trusts proves its key by signing a challenge.
--
-- Which file models which part:
--
--   Prelude.antt     shared names and lemmas: tests, lists, slices, integers as bytes, bitwise
--                    comparison of bytes, hash maps as association lists, results
--   Audio.antt       the constants of gemacast-core/src/audio/mod.rs, `RawPacket` of jitter/types.rs and
--                    the errors of domain/error.rs that the wire formats raise
--   Wire/PcmDatagram gemacast-core/src/audio/pcm_datagram.rs: `PcmDatagram::encode` and `decode`
--   Wire/Packet      gemacast-core/src/stream/streamer/encode.rs, `AudioPacketEncoder::encode`, and
--                    gemacast-core/src/stream/player/packet.rs, `AudioPacketDecoder::decode`
--   Jitter/Buffer    gemacast-core/src/jitter/buffer.rs: every operation of `JitterBuffer`. Invariant and
--                    Preservation hold what is true of every reachable buffer, Spec the playhead with a
--                    window of packets, Refinement, Playing and Run the proof
--                    for each operation and for runs, Cache the lowest sequence number
--   Jitter/Flow      gemacast-core/src/jitter/flow.rs: every operation of `PlaybackFlow`. Conceal is about the
--                    concealment window, Recovery about the recovery window and episodes of starvation
--   Control/Auth     gemacast-core/src/control/auth.rs: every operation of `SessionAuthorizer`. Sessions
--                    is about issuing and revoking, Generations about runs of moves, Pending about
--                    approvals, Tokens about the comparison of tokens
--   Control/DeviceAuth
--                    gemacast-core/src/control/device_auth.rs: the signed transcript, the pairing code and
--                    the keys
--   Stream/PcmAssembly
--                    gemacast-core/src/stream/player/pcm_assembly.rs: every operation of
--                    `PcmAssembly`. Chunks holds the laws of slices and masks, Provenance where released bytes
--                    come from, Completion the four chunks of one frame
--   Stream/Receiver  gemacast-core/src/stream/player/packet_receiver.rs, the loop of `PacketReceiver::spawn`, and
--                    receive_diagnostics.rs. Ending is about how the loop ends, Silence about rounds without
--                    audio, Audio about what it plays, Encoded about packets of the sender's encoder
--   Stream/CaptureInstance, CapturePool
--                    gemacast-core/src/stream/streamer/capture_instance.rs, capture_pool.rs and failure.rs:
--                    every operation of `CapturePool` and the encoders of `AudioCaptureInstance`. Invariant
--                    is what each operation keeps, Generations about runs and evictions, Changes about source and bitrate
--   Stream/UdpSender gemacast-core/src/stream/streamer/udp_audio_sender.rs, the loop of
--                    `UdpAudioSender::run_session`, and captured_frame.rs. Session is about where it sends,
--                    Arrival about its frames at the player
--   Stream/PlaybackWorker
--                    gemacast-core/src/stream/player/playback_control.rs and playback_worker.rs: every
--                    operation of `PlaybackControl`, and the worker's loop
--   Stream/SourceIdle, PacketPacer, Echo
--                    gemacast-core/src/stream/player/source_idle.rs, streamer/packet_pacer.rs and echo.rs
--   Transport/Framer gemacast-core/src/network/adb/framer.rs, `TcpAudioFramer`, and adapters/transport.rs,
--                    `TcpTransport`
--   Transport/Handshake
--                    gemacast-core/src/stream/player/handshake.rs, `AdbAudioHandshake::encode`, and the
--                    handshake functions of network/adb/server.rs
--
--   Pc/DeviceAuth    gemacast-pc/src/device_auth.rs: every operation of `DeviceAuthManager`. Challenges holds
--                    `begin` and `verify`, Invariant and Run what is true after any calls, Verify what a
--                    success means, SingleUse two attempts at one challenge, Pairings the pending pairings
--   Pc/TrustedDevices
--                    gemacast-pc/src/trusted_devices.rs: every operation of `TrustedDeviceStore`. Saving is
--                    about the file, Trust about the states in between, Restart about runs with restarts,
--                    Forgotten and Effects about the answers
--   Pc/Registry      gemacast-pc/src/state.rs: every operation of `SharedMapDeviceRegistry`
--   Updater/Retry    gemacast-core/src/updater/retry.rs: `RetryPolicy`
--
-- How state is modelled. A struct is a record, and a method with `&mut self` is a function from the
-- record to the record and the method's result. A `u64` or `u32` is a natural number with the wrap
-- written out where the code adds. Times are numbers of microseconds (of nanoseconds in the
-- pacer and the sender), given as arguments. A lock that a panic has poisoned is a field of the authorizer. Bytes are numbers below 256, and a text is its bytes.
-- Loops recurse on the list that they run through or on the number of rounds, which the code fixes
-- before the loop, so that no fuel is needed.
--
-- What is a parameter. `f32` arithmetic and the Opus encoder are the fields of `Codec`, and of
-- `Floats` in the playback flow; what
-- is assumed of them is `IsCodec`: a sample has four bytes, and the encoder stays within its buffer.
-- What a socket holds is a list of bytes, and the test for UTF-8 an argument. Random identifiers and
-- tokens are arguments, with `none` for a failure of the generator.
--
-- What is not modelled. The operating systems' capture interfaces, the rest of the updater, the user
-- interfaces, the phone's platform code and the website do input and output around the core. Playback rate control, time
-- stretching, resampling and mixing compute with floating point numbers. The jitter manager, the
-- capture threads and the message handlers of the control channel are outside the
-- model as well.
mod Prelude
pub mod Audio
pub mod Wire
pub mod Jitter
pub mod Control
pub mod Stream
pub mod Transport
pub mod Pc
pub mod Updater
