-- ===== src/Features/Probe.antt =====
-- The probes and Close of stream_processor/aggregations/materialize.go and serving_plane/feature_store/store.go.
use distributed_fraud_detect.Prelude.{ℕ, Option, none, some, ℤ}
use distributed_fraud_detect.Features.Store.{reserve_fallback_budget}

-- What a probe reports.
pub data ProbeError (X : Type 0) : Type 0 where
  client_closed : ProbeError X
  unreachable : X → ProbeError X

-- `RedisMaterializer.Probe` and `Redis.Probe`: the PING of an open client, under its timeout.
unfoldable pub probe_redis :
    {W X : Type 0} → Option (W → Option X × W) → W → Option (ProbeError X) × W
probe_redis none w = (some client_closed, w)
probe_redis (some ping) w =
    let (r, w1) = ping w in (elim r [ none ↦ none | some x ↦ some (unreachable x) ], w1)

-- `RedisMaterializer.Close` and `Redis.Close`: an open client is closed.
unfoldable pub close_redis : {W X : Type 0} → Option (W → Option X × W) → W → Option X × W
close_redis none w = (none, w)
close_redis (some close_client) w = close_client w

-- `Fallback.Probe`: stores that can be probed, the primary one under the budget that is reserved
-- from the time left; the context's `Err` behind it.
unfoldable pub probe_fallback :
    {W X : Type 0}
    → Option (Option ℕ → W → Option X × W)
    → Option (W → Option X × W)
    → (W → Option ℤ)
    → (W → Option X)
    → W
    → Option X × W
unfolding reserve_fallback_budget
probe_fallback none none time_left ctx_err w = (none, w)
probe_fallback none (some local) time_left ctx_err w = local w
probe_fallback (some primary) local time_left ctx_err w =
    let (r, w1) = primary (reserve_fallback_budget (time_left w)) w in
    elim r [
      | none ↦ (none, w1)
      | some x ↦ elim (ctx_err w1) [
        | some c ↦ (some c, w1)
        | none ↦ elim local [ none ↦ (none, w1) | some probe ↦ probe w1 ]
      ]
    ]
