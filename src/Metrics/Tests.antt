-- ===== src/Metrics/Tests.antt =====
-- Three calls on a new recorder.
use ciallo.Common.{List, [], ◌∷◌, false, bytes_eq, pair_eq}
use ciallo.Go.Text.{codes}
use ciallo.Proxy.Server.{CacheResult, Fail2banAction, MetricCall}

abbrev calls : List MetricCall
calls =
    MetricCall.record_status (codes "a") (codes "b") CacheResult.hit false
    ∷ MetricCall.record_login (codes "a") (codes "b") Fail2banAction.banned_ip
    ∷ MetricCall.record_status (codes "a") (codes "b") CacheResult.hit false
    ∷ []
