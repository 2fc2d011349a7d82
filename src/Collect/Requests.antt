-- ===== src/Collect/Requests.antt =====
-- The requests that a stage of AndroidSource/src/Components/UDPCollectTask.cpp sends.
use native.Mathlib.Nat.{mod-lt, div-add-mod, mod-eq_of_lt, mul-add-mod_self_right, mul_comm}
use mathlib.Core.Path.{ap₂}
use mathlib.Core.List.{append-nil}
use nat_data_collector.Prelude.{
  Bool-cases, inl, inr, ==_iff, ℕ, zero, suc, ◌+◌, ◌-◌, ◌*◌, ◌/◌, ◌%◌, ◌<◌, ◌≤◌, ◌≡◌, ◌∙◌, refl,
  sym, ap, List, [], ◌∷◌, ◌++◌, leb, arith, ◌==◌, some, none,
}
use nat_data_collector.Collect.{
  Settings, Socket, request, requests, socket_requests, sockets, sockets_for, min,
}

-- Request number `i` of a stage: the services are taken in turn, and a socket serves one turn.
unfoldable pub numbered : Settings → ℕ → ℕ → Socket
unfolding min
numbered s stage_index i =
    let turn = i % s.echo_server_num_services in
    record {
      index = i;
      port = (s.echo_server_start_port + turn) % 65536;
      max_port =
          (s.echo_server_start_port
            + min (s.sample_size - (i - turn)) s.echo_server_num_services
            - 1)
          % 65536;
      socket = none;
      timer = some (i * s.sample_rate_ms);
      stage_index = stage_index;
      is_last_socket = leb s.sample_size (i - turn + s.echo_server_num_services);
      first = i - turn;
    }

-- The requests with the numbers from `i` on.
unfoldable pub numbered_from : Settings → ℕ → ℕ → ℕ → List Socket
unfolding numbered
numbered_from s stage_index i zero = []
numbered_from s stage_index i (suc n) =
    numbered s stage_index i ∷ numbered_from s stage_index (suc i) n

numbered_from-append :
    (s : Settings) (st i j a b c : ℕ)
    → j ≡ i + a
    → c ≡ a + b
    → numbered_from s st i c ≡ numbered_from s st i a ++ numbered_from s st j b
unfolding numbered_from
numbered_from-append s st i j zero b c e d = ap₂ (numbered_from s st) (omega arith) (omega arith)
numbered_from-append s st i j (suc a) b zero e d = absurd (omega arith)
numbered_from-append s st i j (suc a) b (suc c) e d =
    ap (◌∷◌ (numbered s st i))
      (numbered_from-append s st (suc i) j a b c (omega arith) (omega arith))

request-numbered :
    (s : Settings) (st q req : ℕ)
    → let n = s.echo_server_num_services in
      let base = q * n in
      req < n
      → base + req < 65536
      → request s st base (min (s.sample_size - base) n) (leb s.sample_size (base + n)) req
        ≡ numbered s st (base + req)
unfolding numbered
request-numbered s st q req h k =
    let n = s.echo_server_num_services in
    let turn : (q * n + req) % n ≡ req = mul-add-mod_self_right q n req ∙ mod-eq_of_lt h in
    let back : q * n + req - req ≡ q * n = omega arith in rw (turn, back, mod-eq_of_lt k) refl

requests-numbered :
    (s : Settings) (st q i req k : ℕ)
    → let n = s.echo_server_num_services in
      let base = q * n in
      i ≡ base + req
      → req + k ≤ n
      → base + req + k ≤ 65535
      → requests s st base (min (s.sample_size - base) n) (leb s.sample_size (base + n)) req k
        ≡ numbered_from s st i k
unfolding requests numbered_from
requests-numbered s st q i req zero e h b = refl
requests-numbered s st q i req (suc k) e h b =
    ap₂ (◌∷◌) (request-numbered s st q req (omega arith) (omega arith) ∙ ap (numbered s st) (sym e))
      (requests-numbered s st q (suc i) (suc req) k (omega arith) (omega arith) (omega arith))

-- The last socket is the one that takes what is left.
is_last :
    (sample n q m total base : ℕ)
    → base ≡ q * n
    → 0 < n
    → total ≡ suc (q + m)
    → base + m * n < sample
    → sample ≤ base + m * n + n
    → (q == total - 1) ≡ leb sample (base + n)
is_last sample n q zero total base b pos t lo hi = ground arith
is_last sample n q (suc m) total base b pos t lo hi = ground arith

-- The requests of one local socket; `m` more sockets follow.
socket_requests-numbered :
    (s : Settings) (st total q m : ℕ)
    → let n = s.echo_server_num_services in
      0 < n
      → s.sample_size < 65536
      → total ≡ suc (q + m)
      → q * n + m * n < s.sample_size
      → s.sample_size ≤ q * n + m * n + n
      → socket_requests s st total q ≡ numbered_from s st (q * n) (min (s.sample_size - q * n) n)
unfolding socket_requests min
socket_requests-numbered s st total q m pos small t lo hi =
    let n = s.echo_server_num_services in
    let sample = s.sample_size in
    let a : (sample - q * n) % 65536 ≡ sample - q * n = mod-eq_of_lt (omega arith) in
    let b : q * n % 65536 ≡ q * n = mod-eq_of_lt (omega arith) in
    rw (a, b, is_last sample n q m total (q * n) refl pos t lo hi)
      (requests-numbered s st q (q * n) 0 (min (sample - q * n) n) (omega arith) (ground arith)
        (ground arith))

sockets-numbered :
    (s : Settings) (st total q rounds : ℕ)
    → let n = s.echo_server_num_services in
      0 < n
      → s.sample_size < 65536
      → total ≡ q + rounds
      → q * n + rounds * n < s.sample_size + n
      → s.sample_size ≤ q * n + rounds * n
      → sockets s st total q rounds ≡ numbered_from s st (q * n) (s.sample_size - q * n)
unfolding sockets numbered_from min
sockets-numbered s st total q zero pos small t lo hi =
    let none_left : s.sample_size - q * s.echo_server_num_services ≡ 0 = ground arith in
    rw none_left refl
sockets-numbered s st total q (suc zero) pos small t lo hi =
    let n = s.echo_server_num_services in
    ap₂ (◌++◌)
      (socket_requests-numbered s st total q 0 pos small (omega arith) (ground arith)
        (ground arith))
      refl
    ∙ append-nil (numbered_from s st (q * n) (min (s.sample_size - q * n) n))
    ∙ ap (numbered_from s st (q * n)) (ground arith)
sockets-numbered s st total q (suc (suc m)) pos small t lo hi =
    let n = s.echo_server_num_services in
    let sample = s.sample_size in
    let clamped : min (sample - q * n) n ≡ n = ground arith in
    ap₂ (◌++◌)
      (socket_requests-numbered s st total q (suc m) pos small (omega arith) (ground arith)
        (ground arith))
      (sockets-numbered s st total (suc q) (suc m) pos small (omega arith) (ground arith)
        (ground arith))
    ∙ sym (
        numbered_from-append s st (q * n) (suc q * n) (min (sample - q * n) n) (sample - suc q * n)
          (sample - q * n) (rw clamped (ground arith)) (rw clamped (ground arith)))

quotient : (a n : ℕ) → a / n * n + a % n ≡ a
quotient a n = ap (λ k. k + a % n) (mul_comm (a / n) n) ∙ div-add-mod a n

sockets_for-ceiling :
    (sample n : ℕ)
    → 0 < n
    → (sockets_for sample n * n < sample + n) × (sample ≤ sockets_for sample n * n)
unfolding sockets_for
sockets_for-ceiling sample n pos =
    let q = sample / n in
    let d : q * n + sample % n ≡ sample = quotient sample n in
    let l = mod-lt sample pos in
    let e : (q + 1) * n ≡ q * n + n = ground arith in
    elim (Bool-cases (sample % n == 0)) [
      | inl t ↦
          let z : sample % n ≡ 0 = (==_iff (sample % n) 0).0 t in rw t (omega arith, omega arith)
      | inr t ↦ let z : 0 < sample % n = ground (arith, t) in rw (t, e) (omega arith, omega arith)
    ]

-- Where a stage has echo services and its sample size is a uint16_t, the two nested loops of the
-- preparation put down exactly one request for each number below the sample size, in order: the
-- request's place is its index, the services are taken in turn from the first port on, each turn
-- is one local socket, and only the requests of the last turn belong to the last socket.
pub sockets_lem :
    (s : Settings) (stage_index : ℕ)
    → 0 < s.echo_server_num_services
    → s.sample_size < 65536
    → let n = sockets_for s.sample_size s.echo_server_num_services in
      sockets s stage_index n 0 n ≡ numbered_from s stage_index 0 s.sample_size
sockets_lem s st pos small =
    let n = sockets_for s.sample_size s.echo_server_num_services in
    let c = sockets_for-ceiling s.sample_size s.echo_server_num_services pos in
    sockets-numbered s st n 0 n pos small (omega arith) (omega (arith, c.0)) (omega (arith, c.1))
    ∙ ap₂ (numbered_from s st) (omega arith) (omega arith)
