-- ===== src/Output/Tcp.antt =====
-- output/output_tcp.go: the worker that sends recorded payloads over one connection. What `connect`
-- gives is an argument: whether the first attempt and the ones behind it succeed.
use traffic.Base.Encoding.{ℤ, pos, negsuc}
use traffic.Base.Outcome.{Outcome, ok, panic}
use traffic.Base.{ℕ, zero, suc, ◌+◌, Bool, ◌||◌, List, [], ◌∷◌, ◌++◌, ltb, if◌then◌else◌}
use traffic.Http.Search.{Bytes}
use traffic.Payload.{payload_body, payload_separator}

-- the loop of the attempts, with the counter of retries; 12 rounds are enough
unfoldable pub connect_from : ℕ → (ℕ → Bool) → ℕ → Bool → ℕ × Bool
connect_from zero connect retries connected = (retries, connected)
connect_from (suc fuel) connect retries connected =
    let rest = connect_from fuel connect (retries + 1) (connect (retries + 1)) in
    if connected || ltb 10 retries then (retries, connected) else rest

-- the loop over `Repeat`; an int that is not positive is no round
unfoldable pub send_times : ℕ → Bytes → Bytes
send_times zero body = []
send_times (suc n) body = body ++ (payload_separator ++ send_times n body)

abbrev pub rounds : ℤ → ℕ
rounds (pos n) = n
rounds (negsuc n) = 0

-- what is sent of the payloads that the channel gives
unfoldable pub send_all : ℤ → List Bytes → Bytes
unfolding send_times
send_all repeat [] = []
send_all repeat (data_given ∷ more) =
    send_times (rounds repeat) (payload_body data_given) ++ send_all repeat more

-- `worker`: what it has sent of these payloads; `defer conn.Close()` panics on a nil connection
unfoldable pub worker : {E : Type 0} → (ℕ → Bool) → ℤ → List Bytes → Outcome E Bytes
unfolding connect_from send_all
worker connect repeat payloads =
    let (retries, connected) = connect_from 12 connect 0 (connect 0) in
    if connected then ok (send_all repeat payloads) else panic
