-- ===== src/Transport/Examples/Connections.antt =====
-- The theorems of the connection at concrete inputs.
use talk_sphere.Base.{
  ℕ, List, ◌++◌, take, drop, ◌≡◌, ◌⊎◌, is_some, true, inl, length, refl, [], ◌∷◌, none, ok,
}
use talk_sphere.Transport.Api.{ConnectionRole, ExpectedPeer}
use talk_sphere.Transport.Connection.{
  Connection, Link, begin_shared, close_connection, discard_output, first_connection,
  update_outbound, establish,
}
use talk_sphere.Transport.Connection.Authority.{
  IsContextOf, IsKeysOf, IsOperated, IsPeerProven, authenticated_first, begun, polled,
}
use talk_sphere.Transport.Connection.Driving.{
  poll, take_output, start_output, report_plain, report_written, flush_result, flush_output,
  seal_output, next_frame, write, read_handshake, accept_frame, read_result, read, round_input,
  round, rounds,
}
use talk_sphere.Transport.Examples.Handshakes.{
  auth_from, caller, hello_from, plain_identity, plain_primitives, side,
}
use talk_sphere.Transport.Examples.Protection.{accepted_policy, plain_cipher, policy}
use talk_sphere.Transport.Codec.Frames.{
  frame_header, frame_type_try_from, decode, encode, frame_len,
}
use talk_sphere.Transport.Codec.Hello.{hello_encode, hello_decode, auth_decode}
use talk_sphere.Transport.Framing.{WireFrame, wire_frame}
use talk_sphere.Transport.Handshake.{
  Established, begin, raw_frame, sent, receive_protection, is_authenticated, take_established,
  settled, accept_hello, hello_facts, proof_check, accept_auth, process_kind, process, receive,
}
use talk_sphere.Transport.Framing.Wire.{SocketRead, SocketWrite, ready, serialize}
use talk_sphere.Transport.Connection.Closing.{IsReleased, closed_is_final}
use talk_sphere.Transport.Resources.{Resources, new_resources, reserve, release}
use talk_sphere.Transport.Connection.Discard.{discard_output_empties}
use talk_sphere.Transport.Examples.Sessions.{start}
use talk_sphere.Transport.Session.State.{Session, with_handle, set_resources}
use talk_sphere.Transport.Stream.Registry.{Registry}
use talk_sphere.Transport.Framing.Reader.{accept_header, turn, poll_frame}
use talk_sphere.Transport.Framing.Writer.{start_frame, write_turn, poll_flush, is_busy}
use talk_sphere.Transport.Handshake.Keys.{direction_keys, derive_keys}
use talk_sphere.Transport.Handshake.Transcripts.{sign}
use talk_sphere.Transport.Session.Scheduler.{choose, next_output}
use talk_sphere.Transport.Session.Drain.{ready_to_close}

abbrev link : Link
link = record { reads = []; writes = SocketWrite.takes 112 ∷ []; taken = [] }

abbrev admitted : Resources
admitted = record {
  limits = policy;
  connections = record { used = 1; limit = 4 };
  outbound = record { used = 112; limit = 300000 };
}

abbrev calling : Connection ℕ ℕ
calling = first_connection admitted 5 link 10 10 caller (hello_from 1)

call_begins :
    (begin_shared 1000 ConnectionRole.initiator ExpectedPeer.unpinned accepted_policy 0
      (ok (side 1).public)
      (ok (side 1).key)
      (ok (side 1).nonce)
      (new_resources policy)
      5
      link).1
    ≡ ok calling
unfolding begin_shared reserve new_resources begin raw_frame frame_header hello_encode wire_frame
call_begins = refl

abbrev registry : Registry
registry = record { entries = []; next_owner = 0 }

-- The header of a frame, and then the rest of it.
abbrev pieces_of : WireFrame → List SocketRead
pieces_of f =
    SocketRead.bytes (take 12 (serialize f)) ∷ SocketRead.bytes (drop 12 (serialize f)) ∷ []

abbrev answering : Link
answering = record {
  reads = pieces_of (hello_from 2) ++ pieces_of (auth_from 2);
  writes = SocketWrite.takes 112 ∷ SocketWrite.takes 76 ∷ [];
  taken = [];
}

abbrev conversing : Connection ℕ ℕ
conversing = first_connection admitted 5 answering 10 10 caller (hello_from 1)

conversation_begins :
    (begin_shared 1000 ConnectionRole.initiator ExpectedPeer.unpinned accepted_policy 0
      (ok (side 1).public)
      (ok (side 1).key)
      (ok (side 1).nonce)
      (new_resources policy)
      5
      answering).1
    ≡ ok conversing
unfolding begin_shared reserve new_resources begin raw_frame frame_header hello_encode wire_frame
conversation_begins = refl

abbrev connected : Connection ℕ ℕ
connected = (poll (plain_identity 1) plain_primitives plain_cipher 1000 0 registry conversing).0

-- The handshake of the example completes, so that the connection has a session.
connected_has_session : is_some connected.session ≡ true
unfolding update_outbound establish take_output start_output report_plain report_written
    flush_result flush_output seal_output next_frame write read_handshake accept_frame read_result
    read round_input round rounds poll accept_header turn poll_frame start_frame write_turn
    poll_flush is_busy serialize wire_frame raw_frame sent receive_protection is_authenticated
    take_established settled accept_hello hello_facts proof_check accept_auth process_kind process
    receive direction_keys derive_keys sign frame_type_try_from decode encode frame_len hello_encode
    hello_decode auth_decode choose next_output reserve release with_handle set_resources
    ready_to_close
connected_has_session = refl

authenticated_first_example :
    ((connected.session ≡ none) × (connected.integrity ≡ none))
    ⊎ ((facts : Established ℕ) × IsPeerProven
          (plain_identity 1)
          plain_primitives
          plain_cipher
          1000
          ConnectionRole.initiator
          ExpectedPeer.unpinned
          (side 1).public
          (side 1).key
          facts
        × IsContextOf
            (plain_identity 1)
            plain_primitives
            plain_cipher
            1000
            connected.handle
            facts
            connected.session
        × IsKeysOf (plain_identity 1) plain_primitives plain_cipher 1000 facts connected.integrity)
authenticated_first_example =
    authenticated_first (plain_identity 1) plain_primitives plain_cipher 1000
      ConnectionRole.initiator ExpectedPeer.unpinned accepted_policy 0 (side 1).public (side 1).key
      (side 1).nonce (new_resources policy) 5 answering conversing connected conversation_begins
      (polled 0 registry begun)

closed_is_final_example :
    IsReleased (close_connection calling)
    × (poll
          (plain_identity 1)
          plain_primitives
          plain_cipher
          1000
          7
          registry
          (close_connection calling)
        ≡ (close_connection calling, ready tt))
closed_is_final_example =
    closed_is_final (plain_identity 1) plain_primitives plain_cipher 1000 IsOperated calling
      (close_connection calling) 0 7 registry refl (inl begun)

abbrev crowded : Session
crowded = record start { outbound = hello_from 1 ∷ hello_from 2 ∷ [] }

discard_output_empties_example :
    ((discard_output (length crowded.outbound) crowded).outbound ≡ [])
    × ((discard_output (length crowded.outbound) crowded).events ≡ crowded.events)
    × ((discard_output (length crowded.outbound) crowded).streams ≡ crowded.streams)
    × ((discard_output (length crowded.outbound) crowded).ids ≡ crowded.ids)
    × ((discard_output (length crowded.outbound) crowded).is_closed ≡ crowded.is_closed)
discard_output_empties_example = discard_output_empties crowded
