-- ===== src/WsClient/Probe.antt =====
-- `testConnection` of ws-client.js: a throwaway socket that is tried for five seconds.
use open_webbridge.Base.{Text, lit, Bool, true, false, Option, none, some}

pub data Verdict : Type 0 where
  reachable : Verdict
  unreachable : Text → Verdict

-- Whether the timer of five seconds runs, whether the socket was closed, and the answer.
pub record Probe : Type 0 where
  pub timing : Bool
  pub is_closed : Bool
  pub verdict : Option Verdict

pub data ProbeEvent : Type 0 where
  timed_out probe_opened probe_failed : ProbeEvent

-- `new WebSocket(url)`, which may throw.
unfoldable pub probe_start : Option Text → Probe
probe_start none = record { timing = true; is_closed = false; verdict = none }
probe_start (some reason) = record {
  timing = false;
  is_closed = false;
  verdict = some (unreachable reason);
}

-- `done` is that there is a verdict.
unfoldable pub probe_step : ProbeEvent → Probe → Probe
probe_step e p = elim p.verdict [
  | some v ↦ p
  | none ↦ elim e [
    | timed_out ↦ record p { is_closed = true; verdict = some (unreachable (lit "timeout")) }
    | probe_opened ↦ record { timing = false; is_closed = true; verdict = some reachable }
    | probe_failed ↦ record p {
      timing = false;
      verdict =
          some (
            unreachable (lit "connection failed (check the token and that the daemon is running)"));
    }
  ]
]
