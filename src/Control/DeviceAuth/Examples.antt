-- ===== src/Control/DeviceAuth/Examples.antt =====
-- A challenge and its transcript.
use gemacast.Prelude.{ℕ, ◌≡◌, refl, List, [], ◌∷◌, ◌++◌, some}
use gemacast.Prelude.Bytes.{to_be_bytes, le_bytes}
use gemacast.Control.DeviceAuth.{
  Challenge, device_auth_domain, extend_transcript, build_device_auth_transcript,
  build_device_auth_transcript_injective,
}

abbrev challenge : Challenge
challenge = record {
  device_id = 80 ∷ 104 ∷ [];
  pc_id = 80 ∷ 67 ∷ [];
  pc_certificate_fingerprint = 102 ∷ [];
  public_key = 107 ∷ [];
  phone_nonce = [];
  challenge_id = 1 ∷ [];
  challenge = 9 ∷ 9 ∷ [];
}

transcript : List ℕ
transcript =
    0
    ∷ 0
    ∷ 0
    ∷ 23
    ∷ (device_auth_domain
        ++ (0 ∷ 0 ∷ 0 ∷ 2 ∷ 80 ∷ 104 ∷ 0 ∷ 0 ∷ 0 ∷ 2 ∷ 80 ∷ 67 ∷ 0 ∷ 0 ∷ 0 ∷ 1 ∷ 102 ∷ 0 ∷ 0 ∷ 0 ∷ 1
            ∷ 107 ∷ 0 ∷ 0 ∷ 0 ∷ 0 ∷ 0 ∷ 0 ∷ 0 ∷ 1 ∷ 1 ∷ 0 ∷ 0 ∷ 0 ∷ 2 ∷ 9 ∷ 9 ∷ []))

builds : build_device_auth_transcript challenge ≡ some transcript
unfolding build_device_auth_transcript extend_transcript transcript to_be_bytes le_bytes
builds = refl

build_device_auth_transcript_injective_example : challenge ≡ challenge
build_device_auth_transcript_injective_example =
    build_device_auth_transcript_injective challenge challenge transcript builds builds
