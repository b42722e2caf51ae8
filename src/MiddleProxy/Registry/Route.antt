-- ===== src/MiddleProxy/Registry/Route.antt =====
-- `update_route_backpressure_policy` and `route` of src/transport/middle_proxy/registry.rs. What
-- the channel answers is an argument: `try_send`, the capacity read after it, and the end of the
-- timed `send`.
use v3mtp.Prelude.{
  ℕ, ◌-◌, ◌*◌, ◌/◌, ◌%◌, ◌≤◌, ◌≡◌, max, Bool, true, false, none, some, arith, leb, ltb, nat_eq,
  if◌then◌else◌,
}
use v3mtp.Prelude.Maps
use v3mtp.MiddleProxy.Registry.{ConnRegistry}

pub data RouteResult : Type 0 where
  routed no_conn channel_closed queue_full_base queue_full_high : RouteResult

pub data TrySend : Type 0 where
  sent closed full : TrySend

pub data TimedSend : Type 0 where
  sent_late closed_late timed_out : TimedSend

abbrev pub route_channel_capacity : ℕ
route_channel_capacity = 4096

pub record Policy : Type 0 where
  pub base_timeout_ms : ℕ
  pub high_timeout_ms : ℕ
  pub high_watermark_pct : ℕ

abbrev clamp : ℕ → ℕ → ℕ → ℕ
clamp lo hi x = if ltb x lo then lo else if ltb hi x then hi else x

unfoldable pub update_policy : ℕ → ℕ → ℕ → Policy
update_policy base high pct =
    let base' = max base 1 in
    record {
      base_timeout_ms = base';
      high_timeout_ms = max high base';
      high_watermark_pct = clamp 1 100 pct;
    }

-- `high_profile`, from the capacity that is left in the channel.
unfoldable pub high_profile : Policy → ℕ → Bool
high_profile policy capacity =
    let used = route_channel_capacity - capacity in
    leb (clamp 1 100 policy.high_watermark_pct) (used * 100 / route_channel_capacity % 256)

unfoldable pub route_timeout : Policy → ℕ → ℕ
unfolding high_profile
route_timeout policy capacity =
    let base = max policy.base_timeout_ms 1 in
    if high_profile policy capacity then max policy.high_timeout_ms base else base

abbrev timed : Bool → TimedSend → RouteResult
timed high sent_late = routed
timed high closed_late = channel_closed
timed true timed_out = queue_full_high
timed false timed_out = queue_full_base

abbrev try_route : Policy → TrySend → ℕ → TimedSend → RouteResult
try_route policy sent capacity end = routed
try_route policy closed capacity end = channel_closed
try_route policy full capacity end = timed (high_profile policy capacity) end

module _ (Tx WriterTx Meta : Type 0) where
  unfoldable pub route :
      Policy → ℕ → ConnRegistry Tx WriterTx Meta → TrySend → ℕ → TimedSend → RouteResult
  unfolding high_profile
  route policy id r first capacity end = elim (Maps.get id r.map) [
    | none ↦ no_conn
    | some tx ↦ try_route policy first capacity end
  ]

-- For every policy that an update stores, and every capacity, the timed `send` waits at least a
-- millisecond, at least the base timeout and at most the high one, which it waits where the
-- channel has no room; and the watermark is 1 to 100.
pub route_timeout_bounds :
    (base high pct capacity : ℕ)
    → let policy = update_policy base high pct in
      (1 ≤ route_timeout policy capacity)
      × (policy.base_timeout_ms ≤ route_timeout policy capacity)
      × (route_timeout policy capacity ≤ policy.high_timeout_ms)
      × (route_timeout policy 0 ≡ policy.high_timeout_ms)
      × (1 ≤ policy.high_watermark_pct)
      × (policy.high_watermark_pct ≤ 100)
unfolding update_policy route_timeout
route_timeout_bounds base high pct capacity = ground arith
