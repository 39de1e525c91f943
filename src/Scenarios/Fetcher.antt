-- ===== src/Scenarios/Fetcher.antt =====
-- Requests to two hosts.
use narou_viewer.Fetcher.RateLimiter.{FetchPolicy}
use narou_viewer.Fetcher.Spacing.{Spaced, requests-Spaced, sent_to}
use narou_viewer.Prelude.{[], none, ◌∷◌}
use narou_viewer.Scenarios.Tables.{env0}

abbrev slow_policy : FetchPolicy
slow_policy = record { interval = 700; wait_steps = 10; steps_wait = 5000 }

requests-Spaced_example :
    Spaced 700 none (sent_to env0 slow_policy "__global__" (("a", 10) ∷ ("b", 20) ∷ []) [])
requests-Spaced_example = requests-Spaced env0 slow_policy "__global__" (("a", 10) ∷ ("b", 20) ∷ [])
