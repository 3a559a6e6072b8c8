-- ===== src/Metrics/Prometheus/Tests.antt =====
-- A recorder whose names try to break the text.
use ciallo.Common.{◌≡◌, Bytes, [], ◌∷◌, false, some, bytes_eq, pair_eq}
use ciallo.Go.Text.{codes}
use ciallo.Proxy.Server.{CacheResult, MetricCall}
use ciallo.Health.Snapshot.{HealthSnapshot}
use ciallo.Metrics.{Recorder, new_recorder, apply_all}
use ciallo.Metrics.Snapshot as Metrics
use ciallo.Metrics.Prometheus.{lines_of, write_prometheus}
use ciallo.Metrics.Prometheus.Lines.{split_lines}
use ciallo.Metrics.Prometheus.Laws.{split_lines-write_prometheus}

-- A quote, a newline and a line of its own.
abbrev forged : Bytes
forged = codes "a\"} 1\nfake 2"

abbrev recorder : Recorder
recorder = apply_all new_recorder (
    MetricCall.record_status forged (codes "b") CacheResult.hit false
    ∷ MetricCall.record_backend_dial_error (codes "a") (codes "b")
    ∷ [])

no_health : HealthSnapshot
no_health = record { enabled = false; total = 0; healthy = 0; unhealthy = 0; backends = [] }

split_lines-write_prometheus_example :
    split_lines (write_prometheus (some recorder) no_health)
    ≡ lines_of (Metrics.snapshot recorder no_health)
split_lines-write_prometheus_example = split_lines-write_prometheus (some recorder) no_health
