-- ===== src/Transport/Examples/Departure.antt =====
-- The theorem of GOAWAY at a concrete input: a session with a local stream whose peer accepts none.
use talk_sphere.Base.{ℕ, ◌≤◌, ◌<◌, ◌≡◌, refl, true, false, List, [], ◌∷◌, some, ok}
use talk_sphere.Base.NatMap.{contains, insert, keys, remove, lookup}
use talk_sphere.Transport.Api.{ConnectionRole}
use talk_sphere.Transport.Resources.{reserve, release, new_resources}
use talk_sphere.Transport.Codec.Text.{is_utf8, utf8_from, starts_with_bom}
use talk_sphere.Transport.Codec.Frames.{frame_header, validate_payload_len, validate_stream_id}
use talk_sphere.Transport.Codec.Control.{
  GoAway, go_away, go_away_decode, go_away_encode, diagnostic, diagnostic_decode, diagnostic_encode,
  error_code_try_from,
}
use talk_sphere.Transport.Codec.Opening.{open_new, open_encode}
use talk_sphere.Transport.Framing.{wire_frame}
use talk_sphere.Transport.Stream.Ids.{new_ids, allocate, is_local}
use talk_sphere.Transport.Stream.Registry.{register, resolve, resolve_in, protocol, protocol_in}
use talk_sphere.Transport.Session.State.{
  Session, with_handle, set_resources, event_limit, ◌>>=◌, continue,
}
use talk_sphere.Transport.Session.Output.{
  frame, queue, reserve_outbound, retain_outbound, retained, dropped, drop_frames,
}
use talk_sphere.Transport.Session.Lifecycle.{terminate, close_stream, failure_code}
use talk_sphere.Transport.Session.Drain.{
  receive_goaway, apply_goaway, refused_keys, terminate_all, drain, announce, exceeds,
}
use talk_sphere.Transport.Session.Drain.Bounds.{accepted_goaway}
use talk_sphere.Transport.Session.Requests.{open_stream, open_reserved, allocate_id, add, install}
use talk_sphere.Transport.Session.Reachable.{begun, opened}
use talk_sphere.Transport.Session.Ledger.Life.{fresh}
use talk_sphere.Transport.Examples.Sessions.{budgets, start, registry}

abbrev local_session : Session
local_session = (open_stream registry 1 start).0

abbrev refusal : List ℕ
refusal = 0 ∷ 0 ∷ 0 ∷ 0 ∷ 0 ∷ 0 ∷ 0 ∷ 0 ∷ []

refusal_accepted : (receive_goaway refusal local_session).1 ≡ ok tt
unfolding open_stream open_reserved allocate_id add install allocate is_local new_ids open_new
    open_encode register resolve resolve_in protocol protocol_in event_limit frame frame_header
    validate_payload_len validate_stream_id wire_frame queue reserve_outbound reserve release
    new_resources fresh with_handle set_resources ◌>>=◌ continue receive_goaway apply_goaway
    refused_keys terminate_all drain announce go_away go_away_decode go_away_encode diagnostic
    diagnostic_decode diagnostic_encode error_code_try_from is_utf8 utf8_from starts_with_bom
    contains insert keys remove lookup terminate close_stream failure_code retain_outbound retained
    dropped drop_frames
refusal_accepted = refl

accepted_goaway_example :
    (g : GoAway) × (go_away_decode refusal ≡ ok g)
    × (exceeds local_session.peer_goaway g.last_accepted_remote_stream_id ≡ false)
    × (g.last_accepted_remote_stream_id ≤ local_session.ids.greatest_local)
    × ((receive_goaway refusal local_session).0.peer_goaway ≡ some g.last_accepted_remote_stream_id)
    × (is_local local_session.ids 1 ≡ true
        → g.last_accepted_remote_stream_id < 1
        → contains 1 (receive_goaway refusal local_session).0.streams ≡ false)
accepted_goaway_example =
    accepted_goaway 7 ConnectionRole.initiator [] [] budgets refusal 1 [] local_session
      (opened registry 1 begun) refusal_accepted
