-- ===== src/Proxy/Server/Gauge.antt =====
-- The calls on the metrics that leave the gauge of active connections alone.
use ciallo.Common.{◌≡◌, List, Bool, true, false, Option}
use ciallo.Proxy.Server.{MetricCall, add_call}

abbrev pub moves_gauge : MetricCall → Bool
moves_gauge MetricCall.inc_active_connections = true
moves_gauge MetricCall.dec_active_connections = true
moves_gauge _ = false

-- From the first calls to the second ones with no call on the gauge.
pub data Extends : Option (List MetricCall) → Option (List MetricCall) → Type 0 where
  same : {m : Option (List MetricCall)} → Extends m m
  adds :
      {m n : Option (List MetricCall)} (call : MetricCall)
      → moves_gauge call ≡ false
      → Extends m n
      → Extends m (add_call n call)

pub Extends-trans : {l m n : Option (List MetricCall)} → Extends l m → Extends m n → Extends l n
Extends-trans h Extends.same = h
Extends-trans h (Extends.adds call quiet k) = Extends.adds call quiet (Extends-trans h k)
