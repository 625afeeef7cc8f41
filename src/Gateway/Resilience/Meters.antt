-- ===== src/Gateway/Resilience/Meters.antt =====
-- The counters and the gauge that the events of the circuit breaker and the retries of one service move.
use bankos.Prelude.{ℕ, ◌+◌}

-- The events of the breaker that the code listens to.
pub data BreakerEvent : Type 0 where
  opened : BreakerEvent
  closed : BreakerEvent
  half_opened : BreakerEvent
  timed_out : BreakerEvent
  rejected : BreakerEvent
  failed : BreakerEvent

-- `cbStateGauge`, 1 for an open breaker and 0 for a closed one, and `cbEventsCounter` by its labels.
pub record Meters : Type 0 where
  pub state : ℕ
  pub timeouts : ℕ
  pub rejects : ℕ
  pub failures : ℕ
  pub retries : ℕ

-- `breaker.on(…)`: a half open breaker is only logged.
unfoldable pub on_event : BreakerEvent → Meters → Meters
on_event opened m = record m { state = 1 }
on_event closed m = record m { state = 0 }
on_event half_opened m = m
on_event timed_out m = record m { timeouts = m.timeouts + 1 }
on_event rejected m = record m { rejects = m.rejects + 1 }
on_event failed m = record m { failures = m.failures + 1 }

-- What the loop counts before it waits for the next attempt.
unfoldable pub on_retry : Meters → Meters
on_retry m = record m { retries = m.retries + 1 }
