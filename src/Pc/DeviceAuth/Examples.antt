-- ===== src/Pc/DeviceAuth/Examples.antt =====
-- A phone that pairs, with concrete libraries.
use gemacast.Prelude.{
  ℕ, ◌≤◌, ◌≡◌, refl, List, [], ◌∷◌, Option, none, some, true, false, ◌&&◌, is_some, length, err, ok,
  if◌then◌else◌, ◌==◌, replicate, take,
}
use gemacast.Prelude.Assoc.{text_Eq, Text, text_eq, lookup, insert, retain, remove}
use gemacast.Prelude.Bytes.{to_be_bytes, le_bytes, from_be_bytes, from_le_bytes}
use gemacast.Control.DeviceAuth.{build_device_auth_transcript, extend_transcript}
use gemacast.Control.DeviceAuth.Keys.{Crypto}
use gemacast.Pc.DeviceAuth.{
  VerifiedDeviceIdentity, DeviceAuthRequest, invalid_or_used, new, prune_expired,
}
use gemacast.Pc.DeviceAuth.Challenges.{begin, verify}
use gemacast.Pc.DeviceAuth.Run.{Move, begins, clears, run, step, run_safe, run-WellFormed}
use gemacast.Pc.DeviceAuth.Invariant.{WellFormed, new-WellFormed}
use gemacast.Pc.DeviceAuth.SingleUse.{verify_single_use, none_draws}
use gemacast.Pc.DeviceAuth.Verify.{Answers, verify_sound}

-- A nonce decodes to 32 bytes and all other texts to a point; the one good signature has 65 bytes.
abbrev decode : Text → Option (List ℕ)
decode [] = none
decode (x ∷ t) = some (if x == 1 then replicate 32 x else 4 ∷ replicate 64 x)

abbrev toy : Crypto
toy = record {
  base64_decode = decode;
  base64_encode = λ bytes. bytes;
  hex_encode = λ bytes. bytes;
  sha256 = λ bytes. 0 ∷ 0 ∷ 0 ∷ length bytes ∷ [];
  ecdsa_verify =
      λ key message signature. length message == length message && length key == length signature;
}

abbrev phone : Text
phone = 80 ∷ []

abbrev desk : Text
desk = 68 ∷ []

abbrev begun : List Move
begun = begins phone desk (7 ∷ []) true (9 ∷ []) (1 ∷ []) (some (3 ∷ [])) (some (5 ∷ [])) 100 ∷ []

abbrev answer : DeviceAuthRequest
answer = record {
  public_key = 9 ∷ [];
  phone_nonce = 1 ∷ [];
  challenge_id = some (3 ∷ []);
  signature = some (9 ∷ []);
  phone_confirmation = none;
}

abbrev phone_identity : VerifiedDeviceIdentity
phone_identity = record {
  public_key = 9 ∷ [];
  fingerprint = 0 ∷ 0 ∷ 0 ∷ 65 ∷ [];
  pairing_code = 48 ∷ 48 ∷ 48 ∷ 48 ∷ 56 ∷ 54 ∷ [];
}

accepted :
    (verify toy (run toy new begun) phone desk (7 ∷ []) answer 200 201).1 ≡ some (ok phone_identity)
unfolding verify run step begin prune_expired lookup retain insert remove text_eq
    build_device_auth_transcript extend_transcript to_be_bytes le_bytes from_be_bytes from_le_bytes
    replicate take
accepted = refl

run_safe_example :
    let m = run toy new begun in
    (m.poisoned ≡ false)
    × (length m.challenges ≤ 256)
    × (is_some (verify toy m phone desk (7 ∷ []) answer 200 201).1 ≡ true)
run_safe_example = run_safe toy begun phone desk (7 ∷ []) answer 200 201

verify_single_use_example :
    let tried = (verify toy (run toy new begun) phone desk (7 ∷ []) answer 200 201).0 in
    (verify toy (run toy tried (clears ∷ [])) phone desk (7 ∷ []) answer 300 301).1
    ≡ some (err invalid_or_used)
unfolding none_draws
verify_single_use_example =
    verify_single_use toy begun phone desk (7 ∷ []) answer 200 201 (clears ∷ []) phone desk (7 ∷ [])
      answer 300 301 (3 ∷ []) (9 ∷ []) (9 ∷ []) refl refl refl refl refl

verify_sound_example :
    Answers toy (run toy new begun) phone desk (7 ∷ []) answer 201
    × (phone_identity.public_key ≡ answer.public_key)
verify_sound_example =
    verify_sound toy begun phone desk (7 ∷ []) answer 200 201 phone_identity accepted

begun-WellFormed : WellFormed (run toy new begun)
begun-WellFormed = run-WellFormed toy new begun new-WellFormed
