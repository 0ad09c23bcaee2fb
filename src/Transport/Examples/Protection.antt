-- ===== src/Transport/Examples/Protection.antt =====
-- The theorems of the integrity layer, of policy and of failures at concrete inputs. The cipher of these
-- examples tags with the nonce and the data themselves, and verifies by comparison.
use talk_sphere.Base.{
  ℕ, ◌+◌, ◌≤◌, ◌≡◌, ◌≢◌, refl, true, false, List, [], ◌∷◌, ◌++◌, some, none, ok, err, bytes_eq,
  bytes_eq_iff, if◌then◌else◌, All, arith,
}
use talk_sphere.Transport.Codec.Frames.{FrameType, max_payload_bytes}
use talk_sphere.Transport.Framing.{FramingError, WireFrame, wire_frame}
use talk_sphere.Transport.Resources.{ResourceLimits, new_resources, reserve}
use talk_sphere.Transport.Config.{
  TransportConfig, transport_config, check_limits, transport_config_admits,
}
use talk_sphere.Transport.Failures.{
  IsAgreed, HandshakeError, framing_disposition, handshake_disposition, integrity_disposition,
  with_safe_output, responses_agree,
}
use talk_sphere.Transport.Integrity.{
  Cryptography, DependencyError, DirectionKeys, Integrity, IntegrityError, nonce,
  authenticated_data, new_integrity, seal, seal_with, sealed_frame, sent_sealed, verify,
}
use talk_sphere.Transport.Integrity.Channel.{IsPaired, seal-verify}
use talk_sphere.Transport.Integrity.Nonces.{
  Sealing, IsTagged, Run, begun, sealed, written, nonce_is_fresh,
}

abbrev pub plain_cipher : Cryptography ℕ
plain_cipher = record {
  make_tag = λ k n aad. ok (n ++ aad);
  verify_tag =
      λ k n aad t. if bytes_eq t (n ++ aad) then ok tt else err DependencyError.verification_failed;
}

plain_cipher_verifies :
    (k : ℕ) (n aad t : List ℕ)
    → plain_cipher.make_tag k n aad ≡ ok t
    → plain_cipher.verify_tag k n aad t ≡ ok tt
plain_cipher_verifies k n aad t h = ground (arith, h, bytes_eq_iff t (n ++ aad))

abbrev forward : DirectionKeys ℕ
forward = record { key = 1; nonce_prefix = 1 ∷ 2 ∷ [] }

abbrev backward : DirectionKeys ℕ
backward = record { key = 2; nonce_prefix = 3 ∷ 4 ∷ [] }

abbrev sender : Integrity ℕ
sender = new_integrity forward backward

abbrev receiver : Integrity ℕ
receiver = new_integrity backward forward

abbrev end_frame : WireFrame
end_frame = record {
  reservation = some 29;
  header = record { frame_type = FrameType.data_frame; stream_id = 2; payload_len = 1 };
  payload = 7 ∷ [];
  tag = none;
}

abbrev sealed_at : ℕ → WireFrame
sealed_at n = record end_frame { tag = some (nonce (1 ∷ 2 ∷ []) n ++ authenticated_data end_frame) }

first_seal : (seal plain_cipher end_frame sender).1 ≡ ok (sealed_at 0)
unfolding seal seal_with sealed_frame wire_frame new_integrity
first_seal = refl

sender-IsPaired : IsPaired plain_cipher sender receiver
unfolding new_integrity
sender-IsPaired = record { keys = forward; sends = refl; receives = refl; same_sequence = refl }

seal-verify_example :
    ((sealed_at 0).header ≡ end_frame.header)
    × ((sealed_at 0).payload ≡ end_frame.payload)
    × ((sent_sealed (seal plain_cipher end_frame sender).0).1 ≡ ok tt)
    × ((verify plain_cipher (sealed_at 0) receiver).1 ≡ ok (sealed_at 0))
    × ((sent_sealed (seal plain_cipher end_frame sender).0).0.send_sequence ≡ 1)
    × ((verify plain_cipher (sealed_at 0) receiver).0.receive_sequence ≡ 1)
    × IsPaired plain_cipher
        (sent_sealed (seal plain_cipher end_frame sender).0).0
        (verify plain_cipher (sealed_at 0) receiver).0
unfolding new_integrity
seal-verify_example =
    seal-verify plain_cipher end_frame (sealed_at 0) sender receiver plain_cipher_verifies
      sender-IsPaired (omega arith) first_seal

abbrev later_sender : Integrity ℕ
later_sender = (sent_sealed (seal plain_cipher end_frame sender).0).0

abbrev sealing_at : ℕ → Sealing
sealing_at n = record { given = end_frame; made = sealed_at n; number = n }

later-Run : Run plain_cipher sender (sealing_at 0 ∷ []) later_sender
unfolding new_integrity
later-Run = written (sealed end_frame (sealed_at 0) begun first_seal)

nonce_is_fresh_example :
    IsTagged plain_cipher forward (sealing_at 1)
    × All
        (λ u.
          IsTagged plain_cipher forward u × (nonce (1 ∷ 2 ∷ []) u.number ≢ nonce (1 ∷ 2 ∷ []) 1))
        (sealing_at 0 ∷ [])
unfolding seal seal_with sealed_frame wire_frame sent_sealed new_integrity
nonce_is_fresh_example =
    nonce_is_fresh plain_cipher sender (omega arith) (sealing_at 0 ∷ []) later_sender end_frame
      (sealed_at 1) forward later-Run refl refl

abbrev pub policy : ResourceLimits
policy = record {
  connections = 4;
  streams_per_connection = 8;
  outbound_bytes = 300000;
  buffered_bytes_per_stream = 65536;
}

abbrev timeout : ℕ
timeout = 10

abbrev pub accepted_policy : TransportConfig
accepted_policy = record { limits = policy; handshake_timeout = timeout }

transport_config_admits_example :
    (timeout ≢ 0)
    × (accepted_policy ≡ record { limits = policy; handshake_timeout = timeout })
    × (reserve (new_resources policy).connections 1
        ≡ some (record { used = 1; limit = policy.connections }))
    × (reserve (new_resources policy).outbound (max_payload_bytes + 28)
        ≡ some (record { used = max_payload_bytes + 28; limit = policy.outbound_bytes }))
    × (max_payload_bytes ≤ policy.buffered_bytes_per_stream)
unfolding transport_config check_limits
transport_config_admits_example = transport_config_admits policy timeout accepted_policy refl

responses_agree_example :
    IsAgreed (with_safe_output true (framing_disposition FramingError.truncated))
    × IsAgreed (with_safe_output true (handshake_disposition HandshakeError.order))
    × ((integrity_disposition IntegrityError.exhausted).response ≡ none)
    × ((with_safe_output false (handshake_disposition HandshakeError.order)).response ≡ none)
responses_agree_example =
    responses_agree FramingError.truncated HandshakeError.order IntegrityError.exhausted true
