-- ===== src/HttpServer/Fetch.antt =====
-- How much a fetch over HTTP hands out.
use gpu_telemetry_pipeline.Base.{
  ℕ, ℤ, pos, negsuc, suc, zero, ◌+◌, ◌≤◌, String, Bool, true, false, Option, none, some, List, [],
  ◌∷◌, ◌++◌, map, ◌≡◌, ◌≢◌, refl, sym, ap, str_eq, str_eq_iff, str_eq_of_ne, ◌||◌, if◌then◌else◌,
  length, length-append, All, ◌⊎◌, inl, inr, arith,
}
use gpu_telemetry_pipeline.Message.{Message}
use gpu_telemetry_pipeline.Redis.{Redis, RedisLaws, IsHealthy}
use gpu_telemetry_pipeline.RedisQueue.{
  RedisQueue, Result, Error, Round, stop, skipped, taken, ok, err, panicked, fetch_batch,
  fetch_loop, fetch_round,
}
use gpu_telemetry_pipeline.RedisQueue.Waiting.{waiting}
use gpu_telemetry_pipeline.RedisQueue.Pending.{Tracked}
use gpu_telemetry_pipeline.RedisQueue.Fetch.{fetch_batch_fifo}
use gpu_telemetry_pipeline.HttpServer.{
  Request, Decoders, Response, error, batch, respond, query_get, parse_prefetch, limit_prefetch,
  fetch_limited, handle_fetch,
}

-- A prefetch is at least 1 and at most 2500, and is what the client asked for between the two.
pub limit_prefetch_lem :
    (n : ℤ)
    → (1 ≤ limit_prefetch n)
      × (limit_prefetch n ≤ 2500)
      × ((k : ℕ) → n ≡ pos k → 1 ≤ k → k ≤ 2500 → limit_prefetch n ≡ k)
unfolding limit_prefetch
limit_prefetch_lem (negsuc n) = (omega arith, omega arith, λ k e. ground (arith, e))
limit_prefetch_lem (pos n) =
    (ground arith, ground arith, λ k e low high. ground (arith, e, low, high))

module _ ⦃R : Redis⦄ where
  open R use {Store}

  -- What a method gives if it returns.
  abbrev AtMost : ℕ → Result (List Message) × RedisQueue Store → Type 0
  AtMost n out = (ms : List Message) → out.0 ≡ ok ms → length ms ≤ n

  -- How a pass of the loop can end.
  Round-cases :
      (x : Result Round)
      → (x ≡ ok stop)
        ⊎ (x ≡ ok skipped)
        ⊎ ((m : Message) × (x ≡ ok (taken m)))
        ⊎ ((e : Error) × (x ≡ err e))
        ⊎ (x ≡ panicked)
  Round-cases (ok stop) = inl refl
  Round-cases (ok skipped) = inr (inl refl)
  Round-cases (ok (taken m)) = inr (inr (inl (m, refl)))
  Round-cases (err e) = inr (inr (inr (inl (e, refl))))
  Round-cases panicked = inr (inr (inr (inr refl)))

  fetch_loop-AtMost :
      (clock : ℕ → ℕ) (topic group consumer : String) (n i : ℕ) (acc : List Message)
      (q : RedisQueue Store)
      → AtMost (length acc + n) (fetch_loop clock topic group consumer n i acc q)
  unfolding fetch_loop
  fetch_loop-AtMost clock topic group consumer zero i acc q ms h = ground (arith, h)
  fetch_loop-AtMost clock topic group consumer (suc n) i acc q ms h =
      let out = fetch_round (clock i) topic group consumer q in
      elim (Round-cases out.0) [
        | inl e ↦ let same : ok acc ≡ ok ms = ground (arith, e, h) in ground (arith, same)
        | inr (inl e) ↦
            let k =
              fetch_loop-AtMost clock topic group consumer n (i + 1) acc out.1 ms
                (ground (arith, e, h)) in
            omega (arith, k)
        | inr (inr (inl (m, e))) ↦
            let k =
              fetch_loop-AtMost clock topic group consumer n (i + 1) (acc ++ m ∷ []) out.1 ms
                (ground (arith, e, h)) in
            omega (arith, k, length-append acc (m ∷ []))
        | inr (inr (inr (inl (f, e)))) ↦ absurd (ground (arith, e, h))
        | inr (inr (inr (inr e))) ↦ absurd (ground (arith, e, h))
      ]

  pub fetch_batch-AtMost :
      (clock : ℕ → ℕ) (topic group consumer : String) (count : ℕ) (q : RedisQueue Store)
      → AtMost count (fetch_batch clock topic group consumer count q)
  unfolding fetch_batch
  fetch_batch-AtMost clock topic group consumer count q ms h =
      omega (arith, fetch_loop-AtMost clock topic group consumer count 0 [] q ms h)

module _ ⦃R : Redis⦄ ⦃X : Decoders⦄ where
  open R use {Store}

  batch-injective : (xs ys : List Message) → batch xs ≡ batch ys → xs ≡ ys
  batch-injective xs ys h = ground (arith, h)

  respond-batch :
      (out : Result (List Message) × RedisQueue Store) (ms : List Message)
      → (respond out batch).0 ≡ batch ms
      → out.0 ≡ ok ms
  respond-batch (ok a, p) ms h = ap ok (batch-injective a ms h)
  respond-batch (err e, p) ms h = absurd (ground (arith, h))
  respond-batch (panicked, p) ms h = absurd (ground (arith, h))

  fetch_limited-batch :
      (clock : ℕ → ℕ) (topic group consumer : String) (n : Option ℤ) (q : RedisQueue Store)
      (ms : List Message)
      → (fetch_limited clock topic group consumer n q).0 ≡ batch ms
      → length ms ≤ 2500
  unfolding fetch_limited
  fetch_limited-batch clock topic group consumer none q ms h = absurd (ground (arith, h))
  fetch_limited-batch clock topic group consumer (some n) q ms h =
      let out = fetch_batch clock topic group consumer (limit_prefetch n) q in
      let k =
        fetch_batch-AtMost clock topic group consumer (limit_prefetch n) q ms
          (respond-batch out ms h) in
      omega (arith, k, (limit_prefetch_lem n).1)

  from_then :
      (b : Bool) (x y : Response × RedisQueue Store) (ms : List Message)
      → y.0 ≢ batch ms
      → (if b then x else y).0 ≡ batch ms
      → x.0 ≡ batch ms
  from_then true x y ms differ h = h
  from_then false x y ms differ h = absurd (differ h)

  from_else :
      (b : Bool) (x y : Response × RedisQueue Store) (ms : List Message)
      → x.0 ≢ batch ms
      → (if b then x else y).0 ≡ batch ms
      → y.0 ≡ batch ms
  from_else true x y ms differ h = absurd (differ h)
  from_else false x y ms differ h = h

  error-ne-batch : (status : ℕ) (ms : List Message) → error status ≢ batch ms
  error-ne-batch status ms h = ground (arith, h)

  -- Whatever the request asks for and whatever Redis does, a fetch hands out 2500 messages at most.
  pub handle_fetch-bounded :
      (clock : ℕ → ℕ) (r : Request) (q : RedisQueue Store) (ms : List Message)
      → (handle_fetch clock r q).0 ≡ batch ms
      → length ms ≤ 2500
  unfolding handle_fetch
  handle_fetch-bounded clock r q ms h =
      let topic = query_get r "topic" in
      let group = query_get r "consumer_group" in
      let consumer = query_get r "consumer_id" in
      let n = parse_prefetch X.scan_int (query_get r "prefetch") in
      let missing : Bool = str_eq topic "" || str_eq group "" || str_eq consumer "" in
      let out = fetch_limited clock topic group consumer n q in
      let checked =
        from_then (str_eq r.method "GET") (if missing then (error 400, q) else out) (error 405, q)
          ms (error-ne-batch 405 ms) h in
      fetch_limited-batch clock topic group consumer n q ms
        (from_else missing (error 400, q) out ms (error-ne-batch 400 ms) checked)

  -- With a server that answers: a GET request that names its topic, group and consumer, while at
  -- least as many messages wait as its prefetch, limited, comes to, is answered with exactly that
  -- many, the oldest first; the others stay in order, and each one handed out is in the pending list.
  pub handle_fetch_fifo :
      (L : RedisLaws R) (H : IsHealthy R) (clock : ℕ → ℕ) (r : Request) (n : ℤ) (ms : List Message)
      (left : List (Option Message)) (q : RedisQueue Store)
      → r.method ≡ "GET"
      → query_get r "topic" ≢ ""
      → query_get r "consumer_group" ≢ ""
      → query_get r "consumer_id" ≢ ""
      → parse_prefetch X.scan_int (query_get r "prefetch") ≡ some n
      → length ms ≡ limit_prefetch n
      → waiting L q (query_get r "topic") ≡ map some ms ++ left
      → let out = handle_fetch clock r q in
        (out.0 ≡ batch ms)
        × (waiting L out.1 (query_get r "topic") ≡ left)
        × All (λ m. Tracked L out.1 m (query_get r "consumer_group") (query_get r "consumer_id")) ms
  unfolding handle_fetch fetch_limited
  handle_fetch_fifo L H clock r n ms left q get topic group consumer prefetch size front =
      let (v, l, t) =
        fetch_batch_fifo L H clock (query_get r "topic") (query_get r "consumer_group")
          (query_get r "consumer_id") ms left q front in
      let out =
        fetch_batch clock (query_get r "topic") (query_get r "consumer_group")
          (query_get r "consumer_id") (length ms) q in
      let goes : handle_fetch clock r q ≡ (batch ms, out.1) =
        rw
          (
            (str_eq_iff r.method "GET").1 get,
            str_eq_of_ne _ _ topic,
            str_eq_of_ne _ _ group,
            str_eq_of_ne _ _ consumer,
            prefetch,
            sym size,
          )
          (ground (arith, v)) in
      rw goes (refl, l, t)
