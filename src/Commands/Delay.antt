-- ===== src/Commands/Delay.antt =====
-- When requests are sent, how often, and how far apart.
use hueplusplus.Base.{
  Result, ℕ, suc, ◌∷◌, Bytes, ◌+◌, ◌≤◌, ◌<◌, ◌≡◌, ◌≢◌, refl, arith, ◌⊎◌, ap, ◌∙◌,
}
use hueplusplus.Json.{JsonLib}
use hueplusplus.Commands.{
  Method, Reply, response, busy, system_failure, failure, Network, Line, wait, first, second,
  run_with_timeout,
}

module _ (J : JsonLib) (N : Network J) (method : Method) (uri : Bytes) (body : J.Json) where
  -- When the first request of a call is sent, its reply and its end.
  abbrev pub start : Line → ℕ
  start line = (wait J N line).time

  abbrev pub first_call : Line → Reply J × ℕ
  first_call line = N.call (wait J N line).calls (start line) method uri body

  -- When the request is sent again.
  abbrev pub second_start : ℕ → Line → ℕ
  second_start d line = N.wake ((first_call line).1 + d)

  abbrev pub second_call : ℕ → Line → Reply J × ℕ
  second_call d line = N.call (suc (wait J N line).calls) (second_start d line) method uri body

  abbrev pub after : ℕ → Line → Line
  after d line = (run_with_timeout J N method uri body d line).1

  waited_starts : (line : Line) → (wait J N line).starts ≡ line.starts
  waited_starts line = ground arith

  second-starts : (d : ℕ) (r : Reply J × Line) → (second J N d r).1.starts ≡ r.1.starts
  second-starts d (response v, w) = refl
  second-starts d (busy, w) = refl
  second-starts d (system_failure, w) = refl
  second-starts d (failure e, w) = refl

  start_cases :
      (line : Line)
      → ((line.time < line.timeout) × (start line ≡ N.wake line.timeout))
        ⊎ ((line.timeout ≤ line.time) × (start line ≡ line.time))
  start_cases line = ground arith

  -- A call sends its request a second time exactly if the first reply says that the bridge is too
  -- busy, and then min_delay after the end of the first request; no call sends a third one. The
  -- first request is sent at once if the time of the next request has come, and else when the
  -- thread that sleeps until then wakes up.
  pub run_with_timeout-starts :
      (d : ℕ) (line : Line)
      → ((first_call line).0 ≢ busy → (after d line).starts ≡ start line ∷ line.starts)
        × ((first_call line).0 ≡ busy
            → (after d line).starts ≡ second_start d line ∷ start line ∷ line.starts)
        × (((line.time < line.timeout) × (start line ≡ N.wake line.timeout))
            ⊎ ((line.timeout ≤ line.time) × (start line ≡ line.time)))
  unfolding run_with_timeout
  run_with_timeout-starts d line =
      let sent = by_reply (wait J N line) (first_call line) (waited_starts line) in
      (sent.0, sent.1, start_cases line)
    where
      done : Line → Reply J × ℕ → Reply J × Line
      done w (r, end) =
          (r, record w { time = end; calls = suc w.calls; starts = w.time ∷ w.starts })

      ended : Line → Reply J × ℕ → Line
      ended w r = (first J N method uri body d line.time (done w r)).1

      by_reply :
          (w : Line) (r : Reply J × ℕ)
          → w.starts ≡ line.starts
          → (r.0 ≢ busy → (ended w r).starts ≡ w.time ∷ line.starts)
            × (r.0 ≡ busy → (ended w r).starts ≡ N.wake (r.1 + d) ∷ w.time ∷ line.starts)
      by_reply w (response v, end) e = (λ _. ap (λ s. w.time ∷ s) e, λ h. cc)
      by_reply w (system_failure, end) e = (λ _. ap (λ s. w.time ∷ s) e, λ h. cc)
      by_reply w (failure x, end) e = (λ _. ap (λ s. w.time ∷ s) e, λ h. cc)
      by_reply w (busy, end) e =
          (λ h. absurd (h refl), λ _. second-starts d _ ∙ ap (λ s. N.wake (end + d) ∷ w.time ∷ s) e)

  -- What an answer to the first request leaves behind.
  answered_first :
      (d : ℕ) (line : Line) (v : J.Json)
      → (first_call line).0 ≡ response v
      → ((after d line).time ≡ (first_call line).1) × ((after d line).timeout ≡ line.time + d)
  unfolding run_with_timeout
  answered_first d line v = by_reply (wait J N line) (first_call line)
    where
      by_reply :
          (w : Line) (r : Reply J × ℕ)
          → r.0 ≡ response v
          → ((first J N method uri body d line.time (
            r.0,
            record w { time = r.1; calls = suc w.calls; starts = w.time ∷ w.starts },
          )).1.time
              ≡ r.1)
            × ((first J N method uri body d line.time (
              r.0,
              record w { time = r.1; calls = suc w.calls; starts = w.time ∷ w.starts },
            )).1.timeout
                ≡ line.time + d)
      by_reply w (response u, end) e = (refl, refl)
      by_reply w (busy, end) e = cc
      by_reply w (system_failure, end) e = cc
      by_reply w (failure x, end) e = cc

  -- What an answer to the second request leaves behind.
  answered_second :
      (d : ℕ) (line : Line) (v : J.Json)
      → (first_call line).0 ≡ busy
      → (second_call d line).0 ≡ response v
      → ((after d line).time ≡ (second_call d line).1)
        × ((after d line).timeout ≡ (second_call d line).1 + d)
  unfolding run_with_timeout
  answered_second d line v = by_reply (wait J N line) (first_call line)
    where
      Leaves : Result J.Json × Line → ℕ → Type 0
      Leaves r end = (r.1.time ≡ end) × (r.1.timeout ≡ end + d)

      by_second :
          (w : Line) (r : Reply J × ℕ)
          → r.0 ≡ response v
          → Leaves
              (second J N d
                (r.0, record w { time = r.1; calls = suc w.calls; starts = w.time ∷ w.starts }))
              r.1
      by_second w (response u, end) e = (refl, refl)
      by_second w (busy, end) e = cc
      by_second w (system_failure, end) e = cc
      by_second w (failure x, end) e = cc

      by_reply :
          (w : Line) (r : Reply J × ℕ)
          → r.0 ≡ busy
          → (N.call (suc w.calls) (N.wake (r.1 + d)) method uri body).0 ≡ response v
          → Leaves
              (first J N method uri body d line.time
                (r.0, record w { time = r.1; calls = suc w.calls; starts = w.time ∷ w.starts }))
              (N.call (suc w.calls) (N.wake (r.1 + d)) method uri body).1
      by_reply w (busy, end) e answered =
          by_second _ (N.call (suc w.calls) (N.wake (end + d)) method uri body) answered
      by_reply w (response u, end) e answered = cc
      by_reply w (system_failure, end) e answered = cc
      by_reply w (failure x, end) e answered = cc

module _ (J : JsonLib) (N : Network J) (method method2 : Method) (uri uri2 : Bytes)
    (body body2 : J.Json) where
  -- A thread does not wake up before the time.
  module _ (wakes : (t : ℕ) → t ≤ N.wake t) where
    -- A call that need not wait, and whose first request is answered: if no thread wakes up early,
    -- the next request, whatever it asks, is sent at least min_delay after this one.
    pub run_with_timeout-spacing :
        (d : ℕ) (line : Line) (v : J.Json)
        → line.timeout ≤ line.time
        → (first_call J N method uri body line).0 ≡ response v
        → start J N method uri body line + d
          ≤ start J N method2 uri2 body2 (after J N method uri body d line)
    unfolding run_with_timeout
    run_with_timeout-spacing d line v h e = ground (
      arith,
      start_cases J N method uri body line,
      start_cases J N method2 uri2 body2 (after J N method uri body d line),
      answered_first J N method uri body d line v e,
      wakes (after J N method uri body d line).timeout,
    )

    -- A call whose first reply is that the bridge is too busy, and whose second request is
    -- answered: if no thread wakes up early, the next request, whatever it asks, is sent at least
    -- min_delay after the end of the second one.
    pub run_with_timeout-spacing_retried :
        (d : ℕ) (line : Line) (v : J.Json)
        → (first_call J N method uri body line).0 ≡ busy
        → (second_call J N method uri body d line).0 ≡ response v
        → (second_call J N method uri body d line).1 + d
          ≤ start J N method2 uri2 body2 (after J N method uri body d line)
    unfolding run_with_timeout
    run_with_timeout-spacing_retried d line v e answered = ground (
      arith,
      start_cases J N method2 uri2 body2 (after J N method uri body d line),
      answered_second J N method uri body d line v e answered,
      wakes (after J N method uri body d line).timeout,
    )

    -- A call that waits for the delay of an earlier request, and whose request is answered at most
    -- min_delay after the call was made: if the sleeping thread never wakes up early, and wakes up
    -- on time at min_delay after the call was made, the next request, made at once, is sent less
    -- than min_delay after this one.
    pub run_with_timeout-too_soon :
        (d : ℕ) (line : Line) (v : J.Json)
        → line.time < line.timeout
        → (first_call J N method uri body line).0 ≡ response v
        → (first_call J N method uri body line).1 ≤ line.time + d
        → N.wake (line.time + d) ≡ line.time + d
        → start J N method2 uri2 body2 (after J N method uri body d line)
          < start J N method uri body line + d
    unfolding run_with_timeout
    run_with_timeout-too_soon d line v h e within on_time = ground (
      arith,
      start_cases J N method uri body line,
      start_cases J N method2 uri2 body2 (after J N method uri body d line),
      answered_first J N method uri body d line v e,
      wakes line.timeout,
    )
