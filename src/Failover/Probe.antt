-- ===== src/Failover/Probe.antt =====
-- The recovery probe: when a request tries the primary again, and that the next ones do not.
use emby_panel.Prelude.{ℕ, ◌≤◌, ◌≡◌, List, [], ◌∷◌, String}
use emby_panel.Failover.{FailoverState, ordered}

-- Until `end` the probe is reserved, and the preferred line `p` is ready and stays preferred.
record Reserved (p : String) (end now : ℕ) (s : FailoverState) : Type 0 where
  preferred : s.preferred ≡ p
  lasting : end ≤ s.preferred_until
  probe : end ≤ s.primary_probe_at
  ready : s.failed_until p ≤ now

module _ {T : Type 0} (key : T → String) where
  -- Requests for the same lines at the given times.
  abbrev pub after_requests : List T → List ℕ → FailoverState → FailoverState
  after_requests lines [] s = s
  after_requests lines (x ∷ xs) s = after_requests lines xs (ordered key lines x s).0
