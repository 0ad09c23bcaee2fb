-- ===== src/Transport/Examples/Handshakes.antt =====
-- The theorems of the handshake at concrete inputs. In these examples a signature repeats the octet of
-- which the signer's key consists, the agreed secret is the sum of two numbers, and each key adds an octet of its label.
use talk_sphere.Base.{
  ℕ, ◌+◌, ◌≡◌, ◌≢◌, refl, true, false, List, some, none, ok, err, replicate, get_or, ◌==◌, ==_self,
  if◌then◌else◌,
}
use talk_sphere.Transport.Api.{ConnectionRole, ExpectedPeer}
use talk_sphere.Transport.Codec.Hello.{Hello, hello_encode}
use talk_sphere.Transport.Codec.Frames.{FrameType, frame_header}
use talk_sphere.Transport.Failures.{HandshakeError}
use talk_sphere.Transport.Framing.{WireFrame, wire_frame}
use talk_sphere.Transport.Integrity.{DependencyError}
use talk_sphere.Transport.Handshake.Keys.{
  Primitives, SessionKeys, derive_keys, direction_keys, oriented, salt_input,
}
use talk_sphere.Transport.Handshake.Transcripts.{Identity, authentication, transcript}
use talk_sphere.Transport.Handshake.{
  Established, Handshake, begin, sent, take_established, receive, settled, process, process_kind,
  is_expected, ordered, raw_frame,
}
use talk_sphere.Transport.Handshake.Life.{Life, begun, received, reported}
use talk_sphere.Transport.Handshake.Authentication.{established_sound}
use talk_sphere.Transport.Handshake.Soundness.{IsProven}
use talk_sphere.Transport.Handshake.Ending.{IsOver, refused_is_final, released_once}
use talk_sphere.Transport.Handshake.Agreement.{
  Side, IsWorking, side_hello, answered, finished, IsReady, finished_lem, both_established,
}
use talk_sphere.Transport.Handshake.Domains.{authentication_injective}

abbrev pub plain_primitives : Primitives ℕ ℕ ℕ ℕ
plain_primitives = record {
  sha256 = λ m. ok (replicate 32 0);
  verify_signature = λ k m s.
      if get_or k 0 0 == get_or s 0 0 then ok tt else err DependencyError.verification_failed;
  agree = λ private remote. ok (private + get_or remote 0 0);
  extract = λ salt shared. ok shared;
  expand_key = λ prk label. ok (prk + get_or label 17 0);
  expand_nonce_prefix = λ prk label. ok (replicate 16 (get_or label 17 0));
}

-- The signature is one octet, repeated.
abbrev pub plain_identity : ℕ → Identity
plain_identity n = record {
  identify = λ key. ok key;
  sign_authentication = λ m. ok (replicate 64 n);
}

abbrev pub side : ℕ → Side ℕ
side n = record {
  ports = plain_identity n;
  expected = ExpectedPeer.unpinned;
  public = record { id = replicate 32 n; signing_public_key = replicate 32 n };
  key = record { public_key = replicate 32 n; private_key = n };
  nonce = replicate 32 n;
}

abbrev shared_keys : SessionKeys ℕ
shared_keys = record {
  send = record { key = 76; nonce_prefix = replicate 16 73 };
  receive = record { key = 68; nonce_prefix = replicate 16 65 };
}

abbrev both : List ℕ
both = transcript (side_hello (side 1)) (side_hello (side 2))

derived :
    derive_keys plain_primitives ConnectionRole.initiator 1 (replicate 32 2) both ≡ ok shared_keys
unfolding derive_keys direction_keys oriented
derived = refl

side-IsWorking :
    (role : ConnectionRole) (a b : ℕ)
    → IsWorking plain_primitives role (side a) (side b) both (replicate 64 a)
side-IsWorking role a b = record {
  width = record { identity_width = refl; ephemeral_width = refl; nonce_width = refl };
  knows = refl;
  accepts = refl;
  signs = refl;
  proof_width = refl;
  verified = rw (==_self a);
}

abbrev pub hello_from : ℕ → WireFrame
hello_from n = record {
  reservation = none;
  header = record { frame_type = FrameType.hello; stream_id = 0; payload_len = 100 };
  payload = hello_encode (side_hello (side n));
  tag = none;
}

abbrev pub auth_from : ℕ → WireFrame
auth_from n = record {
  reservation = none;
  header = record { frame_type = FrameType.auth; stream_id = 0; payload_len = 64 };
  payload = replicate 64 n;
  tag = none;
}

abbrev pub caller : Handshake ℕ ℕ
caller = record {
  role = ConnectionRole.initiator;
  expected = ExpectedPeer.unpinned;
  local_identity = replicate 32 1;
  local = side_hello (side 1);
  remote = none;
  private = some 1;
  keys = none;
  hello_sent = false;
  auth_sent = false;
  peer_verified = false;
  closed = false;
}

caller_begins :
    begin ConnectionRole.initiator ExpectedPeer.unpinned
      (ok (side 1).public)
      (ok (side 1).key)
      (ok (side 1).nonce)
    ≡ ok (caller, hello_from 1)
unfolding begin raw_frame frame_header hello_encode wire_frame
caller_begins = refl

abbrev greeted : Handshake ℕ ℕ
greeted =
    (receive (plain_identity 1) plain_primitives (sent FrameType.hello caller).0 (hello_from 2)).0

abbrev verified : Handshake ℕ ℕ
verified =
    (receive (plain_identity 1) plain_primitives (sent FrameType.auth greeted).0 (auth_from 2)).0

verified-Life : Life (plain_identity 1) plain_primitives caller verified
verified-Life =
    received (auth_from 2)
      (reported FrameType.auth (received (hello_from 2) (reported FrameType.hello begun)))

abbrev caller_facts : Established ℕ
caller_facts = record {
  role = ConnectionRole.initiator;
  local_identity = replicate 32 1;
  peer_identity = replicate 32 2;
  keys = shared_keys;
}

caller-IsReady :
    IsReady
      (plain_identity 1)
      plain_primitives
      ConnectionRole.initiator
      ExpectedPeer.unpinned
      (side 1).public
      (side 1).key
      (side 1).nonce
      (side_hello (side 2))
      (replicate 32 2)
      (replicate 64 1)
      (replicate 64 2)
      shared_keys
unfolding ordered
caller-IsReady = record {
  remote_width = (side-IsWorking ConnectionRole.acceptor 2 1).width;
  known = refl;
  pinned = refl;
  signs = refl;
  auth_width = refl;
  proof_width = refl;
  verifies = refl;
  derives = derived;
}

facts_taken : (take_established verified).1 ≡ some caller_facts
unfolding hello_encode ordered
facts_taken =
    finished_lem (plain_identity 1) plain_primitives ConnectionRole.initiator ExpectedPeer.unpinned
      (side 1).public (side 1).key (side 1).nonce (side_hello (side 2)) (replicate 32 2)
      (replicate 64 1) (replicate 64 2) shared_keys caller-IsReady

established_sound_example :
    (verified.hello_sent ≡ true)
    × (verified.auth_sent ≡ true)
    × (caller_facts.role ≡ ConnectionRole.initiator)
    × (caller_facts.local_identity ≡ (side 1).public.id)
    × ((remote : Hello) × ((plain_identity 1).identify remote.identity_public_key
          ≡ ok caller_facts.peer_identity)
        × (is_expected ExpectedPeer.unpinned caller_facts.peer_identity ≡ true)
        × IsProven (plain_identity 1) plain_primitives ConnectionRole.initiator caller.local remote
        × (derive_keys plain_primitives ConnectionRole.initiator
              (side 1).key.private_key
              remote.ephemeral_public_key
              (ordered ConnectionRole.initiator caller.local remote)
            ≡ ok caller_facts.keys))
established_sound_example =
    established_sound (plain_identity 1) plain_primitives ConnectionRole.initiator
      ExpectedPeer.unpinned (side 1).public (side 1).key (side 1).nonce caller verified
      (hello_from 1) caller_facts caller_begins verified-Life facts_taken

released_once_example : (take_established (take_established verified).0).1 ≡ none
released_once_example =
    released_once (plain_identity 1) plain_primitives verified (take_established verified).0
      caller_facts facts_taken begun

abbrev refused : Handshake ℕ ℕ
refused = (receive (plain_identity 1) plain_primitives caller (auth_from 2)).0

early_auth :
    (receive (plain_identity 1) plain_primitives caller (auth_from 2)).1 ≡ err HandshakeError.order
unfolding receive settled process process_kind
early_auth = refl

refused_is_final_example :
    IsOver refused
    × (take_established refused ≡ (refused, none))
    × ((g : WireFrame)
        → (receive (plain_identity 1) plain_primitives refused g).1 ≡ err HandshakeError.order)
    × ((kind : FrameType) → (sent kind refused).1 ≡ err HandshakeError.order)
refused_is_final_example =
    refused_is_final (plain_identity 1) plain_primitives caller refused (auth_from 2)
      HandshakeError.order early_auth begun

authentication_injective_example :
    (authentication ConnectionRole.initiator both ≡ authentication ConnectionRole.initiator both
      → (ConnectionRole.initiator ≡ ConnectionRole.initiator)
        × (side_hello (side 1) ≡ side_hello (side 1))
        × (side_hello (side 2) ≡ side_hello (side 2)))
    × (authentication ConnectionRole.initiator both ≢ salt_input both)
authentication_injective_example =
    authentication_injective ConnectionRole.initiator ConnectionRole.initiator (side_hello (side 1))
      (side_hello (side 2)) (side_hello (side 1)) (side_hello (side 2)) both
      (side-IsWorking ConnectionRole.initiator 1 2).width
      (side-IsWorking ConnectionRole.initiator 2 1).width
      (side-IsWorking ConnectionRole.initiator 1 2).width
      (side-IsWorking ConnectionRole.initiator 2 1).width

both_established_example :
    (start_a : Handshake ℕ ℕ) × (start_b : Handshake ℕ ℕ) × (hello_a : WireFrame)
    × (hello_b : WireFrame) × (auth_a : WireFrame) × (auth_b : WireFrame) × (facts_a : Established
        ℕ)
    × (facts_b : Established ℕ) × (begin ConnectionRole.initiator
          (side 1).expected
          (ok (side 1).public)
          (ok (side 1).key)
          (ok (side 1).nonce)
        ≡ ok (start_a, hello_a))
    × (begin ConnectionRole.acceptor
          (side 2).expected
          (ok (side 2).public)
          (ok (side 2).key)
          (ok (side 2).nonce)
        ≡ ok (start_b, hello_b))
    × ((answered (side 1).ports plain_primitives start_a hello_b).1 ≡ ok (some auth_a))
    × ((answered (side 2).ports plain_primitives start_b hello_a).1 ≡ ok (some auth_b))
    × ((finished (side 1).ports plain_primitives start_a hello_b auth_b).1 ≡ some facts_a)
    × ((finished (side 2).ports plain_primitives start_b hello_a auth_a).1 ≡ some facts_b)
    × (facts_a.peer_identity ≡ (side 2).public.id)
    × (facts_b.peer_identity ≡ (side 1).public.id)
    × (facts_a.keys.send ≡ facts_b.keys.receive)
    × (facts_a.keys.receive ≡ facts_b.keys.send)
both_established_example =
    both_established plain_primitives (side 1) (side 2) (replicate 64 1) (replicate 64 2)
      shared_keys (side-IsWorking ConnectionRole.initiator 1 2)
      (side-IsWorking ConnectionRole.acceptor 2 1) refl derived
