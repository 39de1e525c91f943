-- ===== src/Fetcher/Spacing.antt =====
-- The times at which the requests of fetcher/rate_limiter.go go out.
-- The state of a host after a request that went out at a time, or before its first.
use narou_viewer.Fetcher.RateLimiter.{
  FetchPolicy, HostState, Hosts, allowed_at, delay_after_request, host_key, long_wait, new_host,
  put_state, refreshed, reserve, reserve_host, state_of, take_slot,
}
use narou_viewer.Prelude.{
  Bool-cases, List, Option, String, [], arith, false, if◌then◌else◌, inl, inr, leb, ltb, none, refl,
  some, str_eq, str_eq_iff, str_eq_refl, subst, ℕ, ◌%◌, ◌&&◌, ◌+◌, ◌-◌, ◌<◌, ◌==◌, ◌∷◌, ◌≡◌, ◌≤◌,
}
use narou_viewer.Taskstate.Target.{Env}

Ready : FetchPolicy → Option ℕ → HostState → Type 0
Ready p none s = s ≡ new_host
Ready p (some t) s =
    (0 < s.counter)
    × (s.last_request ≡ some t)
    × (s.next_allowed ≡ some (t + delay_after_request s.counter p (long_wait p)))

-- A request no earlier than a distance after the one before.
abbrev pub Late : ℕ → Option ℕ → ℕ → Type 0
Late d none x = Unit
Late d (some t) x = t + d ≤ x

-- Each request of a list goes out at least the distance after the one before it.
unfoldable pub Spaced : ℕ → Option ℕ → List ℕ → Type 0
Spaced d o [] = Unit
Spaced d o (x ∷ xs) = Late d o x × Spaced d (some x) xs

delay-bounds :
    (p : FetchPolicy) (n : ℕ)
    → 0 < n
    → (p.interval ≤ delay_after_request n p (long_wait p))
      × (delay_after_request n p (long_wait p) ≤ long_wait p)
unfolding delay_after_request
delay-bounds p n h =
    elim (Bool-cases (ltb 0 p.wait_steps && (n % p.wait_steps == 0 && leb p.wait_steps n))) [
      | inl t ↦ rw t (ground arith)
      | inr f ↦ rw f (ground arith)
    ]

take_slot-Ready :
    (p : FetchPolicy) (now : ℕ) (s : HostState)
    → Ready p (some (take_slot p now s).1) (take_slot p now s).0
unfolding Ready take_slot
take_slot-Ready p now s = (omega arith, refl, refl)

-- The next request to a host goes out at least the delay after the one before it, also where the
-- host starts anew.
host-gap :
    (p : FetchPolicy) (now t : ℕ) (s : HostState)
    → Ready p (some t) s
    → t + delay_after_request s.counter p (long_wait p) ≤ (reserve_host p now s).1
unfolding Ready reserve_host refreshed take_slot
host-gap p now t s (used, last, next) =
    let (low, high) = delay-bounds p s.counter used in
    elim (Bool-cases (ltb (long_wait p) (now - t))) [
      | inl far ↦ rw (last, next) (ground (arith, low, high))
      | inr near ↦ rw (last, next) (ground (arith, low, high))
    ]

reserve_host-Ready :
    (p : FetchPolicy) (now : ℕ) (s : HostState)
    → Ready p (some (reserve_host p now s).1) (reserve_host p now s).0
unfolding reserve_host
reserve_host-Ready p now s = take_slot-Ready p now (refreshed p now s)

reserve_host-now : (p : FetchPolicy) (now : ℕ) (s : HostState) → now ≤ (reserve_host p now s).1
unfolding reserve_host take_slot
reserve_host-now p now s = go (refreshed p now s).next_allowed
  where
    go : (o : Option ℕ) → now ≤ allowed_at now o
    go none = omega arith
    go (some next) = ground arith

reserve_host-Late :
    (p : FetchPolicy) (now : ℕ) (o : Option ℕ) (s : HostState)
    → Ready p o s
    → Late p.interval o (reserve_host p now s).1
reserve_host-Late p now none s r = tt
reserve_host-Late p now (some t) s r =
    omega (arith, host-gap p now t s r, delay-bounds p s.counter (used r))
  where
    used : Ready p (some t) s → 0 < s.counter
    used r = unfold Ready in r.0

state_of-put :
    (host h : String) (s : HostState) (hosts : Hosts)
    → state_of h (put_state host s hosts) ≡ (if str_eq host h then s else state_of h hosts)
unfolding state_of put_state
state_of-put host h s [] = refl
state_of-put host h s ((k, t) ∷ hosts) =
    ground
      (arith, state_of-put host h s hosts, str_eq_iff k host, str_eq_iff k h, str_eq_iff host h)

module _ (env : Env) (p : FetchPolicy) where
  -- The times at which the requests to one host go out, of calls of reserve with the clock's value.
  unfoldable pub sent_to : String → List (String × ℕ) → Hosts → List ℕ
  sent_to host [] hosts = []
  sent_to host ((url, now) ∷ calls) hosts =
      let (hosts', wait) = reserve env url p now hosts in
      let rest = sent_to host calls hosts' in
      if str_eq (host_key env url) host then (now + wait) ∷ rest else rest

  reserve-hosts :
      (url : String) (now : ℕ) (hosts : Hosts)
      → (reserve env url p now hosts).0
        ≡ put_state
            (host_key env url)
            (reserve_host p now (state_of (host_key env url) hosts)).0
            hosts
  unfolding reserve
  reserve-hosts url now hosts = refl

  reserve-time :
      (url : String) (now : ℕ) (hosts : Hosts)
      → now + (reserve env url p now hosts).1
        ≡ (reserve_host p now (state_of (host_key env url) hosts)).1
  unfolding reserve
  reserve-time url now hosts =
      ground (arith, reserve_host-now p now (state_of (host_key env url) hosts))

  Ready-same :
      (url : String) (now : ℕ) (hosts : Hosts)
      → Ready p
          (some (now + (reserve env url p now hosts).1))
          (state_of (host_key env url) (reserve env url p now hosts).0)
  Ready-same url now hosts =
      rw
        (
          reserve-hosts url now hosts,
          reserve-time url now hosts,
          state_of-put (host_key env url) (host_key env url)
              (reserve_host p now (state_of (host_key env url) hosts)).0 hosts,
          str_eq_refl (host_key env url),
        )
        (reserve_host-Ready p now (state_of (host_key env url) hosts))

  Ready-other :
      (url host : String) (now : ℕ) (hosts : Hosts) (o : Option ℕ)
      → str_eq (host_key env url) host ≡ false
      → Ready p o (state_of host hosts)
      → Ready p o (state_of host (reserve env url p now hosts).0)
  Ready-other url host now hosts o other r =
      rw
        (
          reserve-hosts url now hosts,
          state_of-put (host_key env url) host
              (reserve_host p now (state_of (host_key env url) hosts)).0 hosts,
          other,
        )
        r

  sent_to-Spaced :
      (host : String) (calls : List (String × ℕ)) (hosts : Hosts) (o : Option ℕ)
      → Ready p o (state_of host hosts)
      → Spaced p.interval o (sent_to host calls hosts)
  unfolding sent_to Spaced
  sent_to-Spaced host [] hosts o r = tt
  sent_to-Spaced host ((url, now) ∷ calls) hosts o r =
      elim (Bool-cases (str_eq (host_key env url) host)) [
        | inl t ↦ rw t (
            subst
              (λ h.
                Ready p o (state_of h hosts)
                → Late p.interval o (now + (reserve env url p now hosts).1)
                  × Spaced p.interval (some (now + (reserve env url p now hosts).1))
                      (sent_to h calls (reserve env url p now hosts).0))
              ((str_eq_iff (host_key env url) host).0 t)
              (λ ready. (
                rw (reserve-time url now hosts)
                    (reserve_host-Late p now o (state_of (host_key env url) hosts) ready),
                sent_to-Spaced (host_key env url) calls (reserve env url p now hosts).0
                    (some (now + (reserve env url p now hosts).1)) (Ready-same url now hosts),
              ))
              r)
        | inr f ↦ rw f (
            sent_to-Spaced host calls (reserve env url p now hosts).0 o
              (Ready-other url host now hosts o f r))
      ]

  -- Whatever URLs are requested and when, the requests to one host go out at least the policy's
  -- interval apart, each counted from the one before it to the same host.
  pub requests-Spaced :
      (host : String) (calls : List (String × ℕ)) → Spaced p.interval none (sent_to host calls [])
  requests-Spaced host calls = sent_to-Spaced host calls [] none (unfold Ready state_of in refl)
