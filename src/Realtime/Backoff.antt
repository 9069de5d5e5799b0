-- ===== src/Realtime/Backoff.antt =====
-- When the client connects again, and when it does not.
use tinai_infra.Prelude.{
  ℕ, zero, suc, ◌+◌, ◌*◌, ◌^◌, min, ◌≡◌, refl, ◌∙◌, Bool, true, false, some, List, [], ◌∷◌, arith,
}
use tinai_infra.Realtime.{Client, Event, closed, timer_fired, on_close, connect, step, run}

-- So many attempts that fail: the timer fires, and the new socket closes before it opens, or the
-- WebSocket class takes no such URL.
abbrev pub retries : (valid : Bool) → ℕ → List Event
retries valid zero = []
retries true (suc n) = timer_fired ∷ closed ∷ retries true n
retries false (suc n) = timer_fired ∷ retries false n

-- A client that wants a connection, has the class, and has waited for `k` attempts.
abbrev IsWaiting : (k : ℕ) → Client → Type 0
IsWaiting k c =
    (c.should_reconnect ≡ true)
    × (c.has_class ≡ true)
    × (c.reconnect_attempts ≡ k + 1)
    × (c.reconnect_timer ≡ some (min (100 * 2 ^ k) 30_000))

failed_socket : (k : ℕ) (c : Client) → IsWaiting k c → IsWaiting (k + 1) (on_close (connect true c))
failed_socket k c (wanted, there, count, timer) = ground arith

failed_class : (k : ℕ) (c : Client) → IsWaiting k c → IsWaiting (k + 1) (connect false c)
failed_class k c (wanted, there, count, timer) = ground arith

run-retries :
    (valid : Bool) (n k : ℕ) (c : Client)
    → IsWaiting k c
    → (run valid (retries valid n) c).reconnect_timer ≡ some (min (100 * 2 ^ (k + n)) 30_000)
unfolding run step
run-retries valid zero k c h = ground arith
run-retries true (suc n) k c h =
    let counted : k + 1 + n ≡ k + suc n = omega arith in
    run-retries true n (k + 1) (on_close (connect true c)) (failed_socket k c h) ∙ rw counted refl
run-retries false (suc n) k c h =
    let counted : k + 1 + n ≡ k + suc n = omega arith in
    run-retries false n (k + 1) (connect false c) (failed_class k c h) ∙ rw counted refl

-- Where a client that has the WebSocket class loses its connection, and then so many attempts to
-- connect again fail, the timer of the next attempt is of 100 ms times two to the number of attempts
-- since the last opening, but of 30 seconds at most.
pub run-retries-backoff :
    (valid : Bool) (n : ℕ) (c : Client)
    → c.should_reconnect ≡ true
    → c.has_class ≡ true
    → (run valid (closed ∷ retries valid n) c).reconnect_timer
      ≡ some (min (100 * 2 ^ (c.reconnect_attempts + n)) 30_000)
unfolding run step
run-retries-backoff valid n c wanted there =
    run-retries valid n c.reconnect_attempts (on_close c) (ground arith)
