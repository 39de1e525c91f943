-- ===== src/Fetcher/RateLimiter.antt =====
-- fetcher/rate_limiter.go: when the next request to a host may go out. A time is a number of
-- nanoseconds and `none` the zero time; the durations of a policy are not negative.
use narou_viewer.Prelude.{
  Bool, List, Option, String, [], false, if◌then◌else◌, leb, ltb, none, not, some, str_eq, suc, ℕ,
  ◌%◌, ◌&&◌, ◌+◌, ◌-◌, ◌==◌, ◌∷◌,
}
use narou_viewer.Taskstate.Target.{Env, Url}

pub record FetchPolicy : Type 0 where
  pub interval : ℕ
  pub wait_steps : ℕ
  pub steps_wait : ℕ

-- The struct hostState.
pub record HostState : Type 0 where
  pub counter : ℕ
  pub last_request : Option ℕ
  pub next_allowed : Option ℕ

abbrev pub new_host : HostState
new_host = record { counter = 0; last_request = none; next_allowed = none }

-- The map hosts.
abbrev pub Hosts : Type 0
Hosts = List (String × HostState)

abbrev pub max_duration : ℕ → ℕ → ℕ
max_duration left right = if ltb right left then left else right

-- stepsWait
abbrev pub long_wait : FetchPolicy → ℕ
long_wait p = max_duration p.steps_wait p.interval

unfoldable pub delay_after_request : ℕ → FetchPolicy → ℕ → ℕ
delay_after_request counter p steps_wait =
    if ltb 0 p.wait_steps && (counter % p.wait_steps == 0 && leb p.wait_steps counter)
    then steps_wait
    else if ltb 0 counter
    then p.interval
    else 0

-- now.Sub(lastRequest) > stepsWait, of a last request
abbrev pub is_past : ℕ → ℕ → Option ℕ → Bool
is_past wait now none = false
is_past wait now (some last) = ltb wait (now - last)

-- nextAllowed.After(now)
abbrev pub is_after : ℕ → Option ℕ → Bool
is_after now none = false
is_after now (some next) = ltb now next

-- A host that was left alone for long enough starts anew.
unfoldable pub refreshed : FetchPolicy → ℕ → HostState → HostState
refreshed p now s =
    if is_past (long_wait p) now s.last_request && not (is_after now s.next_allowed)
    then new_host
    else s

abbrev pub allowed_at : ℕ → Option ℕ → ℕ
allowed_at now none = now
allowed_at now (some next) = if ltb next now then now else next

-- The state after a reservation, and the time at which its request may go out.
unfoldable pub take_slot : FetchPolicy → ℕ → HostState → HostState × ℕ
take_slot p now s =
    let at = allowed_at now s.next_allowed in
    (
      record {
        counter = suc s.counter;
        last_request = some at;
        next_allowed = some (at + delay_after_request (suc s.counter) p (long_wait p));
      },
      at,
    )

unfoldable pub reserve_host : FetchPolicy → ℕ → HostState → HostState × ℕ
unfolding refreshed take_slot
reserve_host p now s = take_slot p now (refreshed p now s)

unfoldable pub state_of : String → Hosts → HostState
state_of host [] = new_host
state_of host ((h, s) ∷ hosts) = if str_eq h host then s else state_of host hosts

unfoldable pub put_state : String → HostState → Hosts → Hosts
put_state host s [] = (host, s) ∷ []
put_state host s ((h, t) ∷ hosts) =
    if str_eq h host then (h, s) ∷ hosts else (h, t) ∷ put_state host s hosts

module _ (env : Env) where
  host_of : Option Url → String
  host_of none = "__global__"
  host_of (some u) = if str_eq u.host "" then "__global__" else u.host

  unfoldable pub host_key : String → String
  unfolding host_of
  host_key url = host_of (env.parse_url url)

  -- reserve: the new map and the duration to wait.
  unfoldable pub reserve : String → FetchPolicy → ℕ → Hosts → Hosts × ℕ
  unfolding reserve_host
  reserve url p now hosts =
      let host = host_key url in
      let (s, at) = reserve_host p now (state_of host hosts) in
      (put_state host s hosts, (if ltb now at then at - now else 0))
