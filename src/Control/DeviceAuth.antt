-- ===== src/Control/DeviceAuth.antt =====
-- gemacast-core/src/control/device_auth.rs: the transcript that the phone signs and the computer
-- verifies. A text is given by its bytes; a failed `expect` is `none`.
pub mod Keys
mod Examples
use gemacast.Prelude.{
  ℕ, ◌+◌, ◌-◌, ◌%◌, ◌^◌, ◌<◌, ◌≤◌, ◌≡◌, refl, sym, ap, ◌∙◌, List, [], ◌∷◌, ◌++◌, Option, none, some,
  Bool, true, false, arith, ltb, if◌then◌else◌, length, get_or, Bool-cases, inl, inr, ltb→lt,
}
use mathlib.Core.List.{append_assoc, append-nil}
use gemacast.Prelude.Bytes.{to_be_bytes}
use gemacast.Prelude.Assoc.{Text}
use gemacast.Transport.Framer.{frames, receives, receives-frames, AllFit}

-- "gemacast-device-auth-v1"
abbrev pub device_auth_domain : Text
device_auth_domain =
    103 ∷ 101 ∷ 109 ∷ 97 ∷ 99 ∷ 97 ∷ 115 ∷ 116 ∷ 45 ∷ 100 ∷ 101 ∷ 118 ∷ 105 ∷ 99 ∷ 101 ∷ 45 ∷ 97
    ∷ 117 ∷ 116 ∷ 104 ∷ 45 ∷ 118 ∷ 49 ∷ []

pub record Challenge : Type 0 where
  pub device_id : Text
  pub pc_id : Text
  pub pc_certificate_fingerprint : Text
  pub public_key : Text
  pub phone_nonce : Text
  pub challenge_id : Text
  pub challenge : Text

abbrev pub fields : Challenge → List Text
fields c =
    device_auth_domain ∷ c.device_id ∷ c.pc_id ∷ c.pc_certificate_fingerprint ∷ c.public_key
    ∷ c.phone_nonce ∷ c.challenge_id ∷ c.challenge ∷ []

-- The loop over the fields.
unfoldable pub extend_transcript : List ℕ → List Text → Option (List ℕ)
extend_transcript transcript [] = some transcript
extend_transcript transcript (field ∷ rest) =
    if ltb (length field) (2 ^ 32)
    then extend_transcript (transcript ++ (to_be_bytes 4 (length field) ++ field)) rest
    else none

unfoldable pub build_device_auth_transcript : Challenge → Option (List ℕ)
unfolding extend_transcript
build_device_auth_transcript c = extend_transcript [] (fields c)

largest_field : ℕ
largest_field = 2 ^ 32 - 1

some_value : (a b : List ℕ) → some a ≡ some b → a ≡ b
some_value a b e = cc

extend_transcript-frames :
    (fs : List Text) (start t : List ℕ)
    → extend_transcript start fs ≡ some t
    → (t ≡ start ++ frames fs) × AllFit largest_field fs
unfolding extend_transcript frames largest_field
extend_transcript-frames [] start t e = (sym (some_value _ t e) ∙ sym (append-nil start), tt)
extend_transcript-frames (f ∷ fs) start t e = elim (Bool-cases (ltb (length f) (2 ^ 32))) [
  | inl l ↦
      let (shape, fit) =
        extend_transcript-frames fs (start ++ (to_be_bytes 4 (length f) ++ f)) t (rw l at e) in
      let small : length f ≡ length f % 2 ^ 32 = omega (arith, ltb→lt (length f) (2 ^ 32) l) in
      (
        shape
            ∙ append_assoc start (to_be_bytes 4 (length f) ++ f) (frames fs)
            ∙ ap (λ n. start ++ ((to_be_bytes 4 n ++ f) ++ frames fs)) small,
        (omega (arith, ltb→lt (length f) (2 ^ 32) l), fit),
      )
  | inr n ↦ absurd (ground (arith, n))
]

-- The fields can be read back from a transcript.
read_back :
    (fs : List Text) (t : List ℕ)
    → extend_transcript [] fs ≡ some t
    → (receives largest_field (length fs) t).0 ≡ fs
read_back fs t e =
    let (shape, fit) = extend_transcript-frames fs [] t e in
    ap (λ s. (receives largest_field (length fs) s).0) (shape ∙ sym (append-nil (frames fs)))
    ∙ ap (λ r. r.0) (receives-frames largest_field fs [] fit (unfold largest_field in omega arith))

-- The transcript is unambiguous: two challenges with one transcript agree in the device, the computer,
-- its certificate, the public key, the nonce, and the id and the bytes of the challenge.
pub build_device_auth_transcript_injective :
    (a b : Challenge) (t : List ℕ)
    → build_device_auth_transcript a ≡ some t
    → build_device_auth_transcript b ≡ some t
    → a ≡ b
unfolding build_device_auth_transcript get_or
build_device_auth_transcript_injective a b t ea eb =
    let same : fields a ≡ fields b = sym (read_back (fields a) t ea) ∙ read_back (fields b) t eb in
    let field = λ (n : ℕ). ap (λ (l : List Text). get_or l n []) same in
    λ i. record {
      device_id = field 1 i;
      pc_id = field 2 i;
      pc_certificate_fingerprint = field 3 i;
      public_key = field 4 i;
      phone_nonce = field 5 i;
      challenge_id = field 6 i;
      challenge = field 7 i;
    }
