-- ===== src/Transport/Config.antt =====
-- Local policy: src/modules/transport/config.rs. A duration is a number of one unit.
use talk_sphere.Base.{
  ℕ, ◌+◌, ◌≤◌, ◌≡◌, ◌≢◌, List, [], ◌∷◌, some, Result, ok, err, ◌>>◌, ensure, not, ltb, ◌==◌,
  if◌then◌else◌, arith,
}
use talk_sphere.Transport.Codec.Frames.{header_bytes, integrity_tag_bytes, max_payload_bytes}
use talk_sphere.Transport.Resources.{ResourceLimits, new_resources, reserve}

abbrev pub max_frame_bytes : ℕ
max_frame_bytes = header_bytes + max_payload_bytes + integrity_tag_bytes

pub data Limit : Type 0 where
  connections streams_per_connection outbound_bytes buffered_bytes_per_stream : Limit

pub data ConfigError : Type 0 where
  zero_handshake_timeout : ConfigError
  limit_too_small : Limit → ℕ → ConfigError

pub record TransportConfig : Type 0 where
  pub limits : ResourceLimits
  pub handshake_timeout : ℕ

-- The loop over the limits, their values and their minima.
unfoldable pub check_limits : List (Limit × ℕ × ℕ) → Result (Unit {0}) ConfigError
check_limits [] = ok tt
check_limits ((limit, value, minimum) ∷ rest) =
    let others = check_limits rest in
    if ltb value minimum then err (limit_too_small limit minimum) else others

unfoldable pub transport_config : ResourceLimits → ℕ → Result TransportConfig ConfigError
unfolding check_limits
transport_config limits handshake_timeout = do
  ensure (not (handshake_timeout == 0)) zero_handshake_timeout
  check_limits (
      (Limit.connections, limits.connections, 1)
      ∷ (Limit.streams_per_connection, limits.streams_per_connection, 1)
      ∷ (Limit.outbound_bytes, limits.outbound_bytes, max_frame_bytes)
      ∷ (Limit.buffered_bytes_per_stream, limits.buffered_bytes_per_stream, max_payload_bytes)
      ∷ [])
  ok (record { limits = limits; handshake_timeout = handshake_timeout })

-- A policy that validation accepts has a positive timeout and is the policy given, its fresh budgets admit a
-- connection and a protected frame of the greatest size, and a stream's buffer holds the greatest payload.
pub transport_config_admits :
    (limits : ResourceLimits) (timeout : ℕ) (config : TransportConfig)
    → transport_config limits timeout ≡ ok config
    → (timeout ≢ 0)
      × (config ≡ record { limits = limits; handshake_timeout = timeout })
      × (reserve (new_resources limits).connections 1
          ≡ some (record { used = 1; limit = limits.connections }))
      × (reserve (new_resources limits).outbound (max_payload_bytes + 28)
          ≡ some (record { used = max_payload_bytes + 28; limit = limits.outbound_bytes }))
      × (max_payload_bytes ≤ limits.buffered_bytes_per_stream)
unfolding transport_config check_limits new_resources reserve
transport_config_admits limits timeout config h = ground (arith, h)
