-- ===== src/InMemoryQueue/Bounds.antt =====
-- The channel and the worker pool hold no more than they have room for, and the counters account
-- for every handler.
use gpu_telemetry_pipeline.Base.{
  ℕ, suc, ◌+◌, ℤ, some, List, [], ◌∷◌, ◌≡◌, refl, subst, Option-cases, inl, inr, arith,
}
use mathlib.Core.Option.{some-injective}
use gpu_telemetry_pipeline.InMemoryQueue.{
  InMemoryQueue, new_in_memory_queue, start, subscribe, unsubscribe, begin_stop, begin_close,
  drains, stop_begins, stop_returns, close_begins, unsubscribes, Event, starts, receives,
  dispatches, publishes, subscribes, finishes, releases, releases_panicked, counts_panic, step, run,
}
use gpu_telemetry_pipeline.InMemoryQueue.Accounting.{
  Accounts, Accounts-start, Accounts-subscribe, Accounts-unsubscribe, Accounts-publish,
  Accounts-receive, Accounts-dispatch, Accounts-finish, Accounts-begin_stop, Accounts-begin_close,
  Accounts-drain, Accounts-end_stop, Accounts-release, Accounts-release_panicked,
  Accounts-count_panic,
}

-- How often the dispatcher started a handler.
abbrev pub dispatched : List Event → ℕ
dispatched [] = 0
dispatched (dispatches ∷ es) = suc (dispatched es)
dispatched (starts ∷ es) = dispatched es
dispatched (receives ∷ es) = dispatched es
dispatched (publishes m ∷ es) = dispatched es
dispatched (subscribes t h ∷ es) = dispatched es
dispatched (finishes i b ∷ es) = dispatched es
dispatched (unsubscribes t ∷ es) = dispatched es
dispatched (drains ∷ es) = dispatched es
dispatched (stop_begins ∷ es) = dispatched es
dispatched (stop_returns ∷ es) = dispatched es
dispatched (close_begins ∷ es) = dispatched es
dispatched (releases ∷ es) = dispatched es
dispatched (releases_panicked ∷ es) = dispatched es
dispatched (counts_panic ∷ es) = dispatched es

-- How often it took a message.
abbrev pub received : List Event → ℕ
received [] = 0
received (receives ∷ es) = suc (received es)
received (starts ∷ es) = received es
received (dispatches ∷ es) = received es
received (publishes m ∷ es) = received es
received (subscribes t h ∷ es) = received es
received (finishes i b ∷ es) = received es
received (unsubscribes t ∷ es) = received es
received (drains ∷ es) = received es
received (stop_begins ∷ es) = received es
received (stop_returns ∷ es) = received es
received (close_begins ∷ es) = received es
received (releases ∷ es) = received es
received (releases_panicked ∷ es) = received es
received (counts_panic ∷ es) = received es

run-step :
    (e : Event) (es : List Event) (q p : InMemoryQueue)
    → run (e ∷ es) q ≡ some p
    → (q' : InMemoryQueue) × (step e q ≡ some q') × (run es q' ≡ some p)
unfolding run
run-step e es q p h = elim (Option-cases (step e q)) [
  | inl n ↦ absurd (ground (arith, n, h))
  | inr (q', s) ↦ (q', s, ground (arith, s, h))
]

recount : (n n' k k' : ℕ) (q : InMemoryQueue) → n ≡ n' → k ≡ k' → Accounts n k q → Accounts n' k' q
recount n n' k k' q e f a = subst (λ i. Accounts i k' q) e (subst (λ j. Accounts n j q) f a)

run-Accounts :
    (es : List Event) (n k : ℕ) (q p : InMemoryQueue)
    → Accounts n k q
    → run es q ≡ some p
    → Accounts (n + dispatched es) (k + received es) p
run-Accounts [] n k q p a h =
    let same = some-injective q p (unfold run in h) in
    recount _ _ _ _ p (omega arith) (omega arith) (subst (Accounts n k) same a)
run-Accounts (starts ∷ es) n k q p a h =
    run-Accounts es n k (start q).1 p (Accounts-start n k q a) (unfold run step in h)
run-Accounts (subscribes topic handler ∷ es) n k q p a h =
    run-Accounts es n k (subscribe topic handler q).1 p (Accounts-subscribe n k q topic handler a)
      (unfold run step in h)
run-Accounts (unsubscribes topic ∷ es) n k q p a h =
    run-Accounts es n k (unsubscribe topic q) p (Accounts-unsubscribe n k q topic a)
      (unfold run step in h)
run-Accounts (stop_begins ∷ es) n k q p a h =
    run-Accounts es n k (begin_stop q) p (Accounts-begin_stop n k q a) (unfold run step in h)
run-Accounts (close_begins ∷ es) n k q p a h =
    run-Accounts es n k (begin_close q) p (Accounts-begin_close n k q a) (unfold run step in h)
run-Accounts (drains ∷ es) n k q p a h =
    let (q', s, r) = run-step drains es q p h in
    run-Accounts es n k q' p (Accounts-drain n k q q' a (unfold step in s)) r
run-Accounts (stop_returns ∷ es) n k q p a h =
    let (q', s, r) = run-step stop_returns es q p h in
    run-Accounts es n k q' p (Accounts-end_stop n k q q' a (unfold step in s)) r
run-Accounts (publishes m ∷ es) n k q p a h =
    let (q', s, r) = run-step (publishes m) es q p h in
    run-Accounts es n k q' p (Accounts-publish n k q q' m a s) r
run-Accounts (receives ∷ es) n k q p a h =
    let (q', s, r) = run-step receives es q p h in
    recount _ _ _ _ p (omega arith) (omega arith)
      (run-Accounts es n (suc k) q' p (Accounts-receive n k q q' a (unfold step in s)) r)
run-Accounts (dispatches ∷ es) n k q p a h =
    let (q', s, r) = run-step dispatches es q p h in
    recount _ _ _ _ p (omega arith) (omega arith)
      (run-Accounts es (suc n) k q' p (Accounts-dispatch n k q q' a (unfold step in s)) r)
run-Accounts (finishes i how ∷ es) n k q p a h =
    let (q', s, r) = run-step (finishes i how) es q p h in
    run-Accounts es n k q' p (Accounts-finish n k i how q q' a (unfold step in s)) r
run-Accounts (releases ∷ es) n k q p a h =
    let (q', s, r) = run-step releases es q p h in
    run-Accounts es n k q' p (Accounts-release n k q q' a (unfold step in s)) r
run-Accounts (releases_panicked ∷ es) n k q p a h =
    let (q', s, r) = run-step releases_panicked es q p h in
    run-Accounts es n k q' p (Accounts-release_panicked n k q q' a (unfold step in s)) r
run-Accounts (counts_panic ∷ es) n k q p a h =
    let (q', s, r) = run-step counts_panic es q p h in
    run-Accounts es n k q' p (Accounts-count_panic n k q q' a (unfold step in s)) r

-- After any run of a new queue: the channel holds no more messages than its size and no more
-- handlers hold a worker's place than there are workers; the published counter is the number of messages
-- taken and waiting, and the delivered and failed handlers with those in flight and the panics that are
-- not counted yet are all that were started, modulo the counters' 2^64. When the queue does not run, as
-- when `Stop` has returned, no handler is in flight and none is yet to be started; a panic may still have
-- to be counted.
pub run-Accounts_new :
    (buffer_size max_workers : ℤ) (es : List Event) (p : InMemoryQueue)
    → run es (new_in_memory_queue buffer_size max_workers) ≡ some p
    → Accounts (dispatched es) (received es) p
run-Accounts_new buffer_size max_workers es p h =
    let a : Accounts 0 0 (new_in_memory_queue buffer_size max_workers) =
      unfold new_in_memory_queue in
      record {
        channel_bound = omega arith;
        pool_bound = omega arith;
        taken = refl;
        ended = refl;
        no_handler = λ h. refl;
        no_dispatcher = λ h. refl;
        none_pending = λ h. refl;
      } in
    recount _ _ _ _ p (omega arith) (omega arith) (run-Accounts es 0 0 _ p a h)
