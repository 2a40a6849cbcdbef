-- ===== src/InMemoryQueue/Accounting.antt =====
-- What each event does to the bounds and the counters of the queue.
use mathlib.Core.Option.{some-injective}
use gpu_telemetry_pipeline.Base.{
  subst, ℕ, zero, suc, ◌+◌, ◌%◌, ◌≤◌, false, some, List, [], ◌∷◌, ◌≡◌, String, length,
  length-append, Option-cases, inl, inr, arith,
}
use gpu_telemetry_pipeline.Message.{Message}
use gpu_telemetry_pipeline.InMemoryQueue.{
  InMemoryQueue, start, publish, subscribe, unsubscribe, drain, begin_stop, end_stop, begin_close,
  receive, dispatch, remove_at, finish, publishes, step, taken_places, Ending, fine, failed,
  panicked, end_as, release, release_panicked, count_panic,
}

-- With `n` handlers started and `k` messages taken.
pub record Accounts (n k : ℕ) (q : InMemoryQueue) : Type 0 where
  pub channel_bound : length q.messages ≤ q.buffer_size
  pub pool_bound : taken_places q ≤ q.max_workers
  pub taken : q.total_published ≡ (k + length q.messages) % 18446744073709551616
  pub ended :
      (q.total_delivered + q.total_errors + length q.in_flight + q.panicking + q.recovering)
        % 18446744073709551616
      ≡ n % 18446744073709551616
  pub no_handler : q.running ≡ false → length q.in_flight ≡ 0
  pub no_dispatcher : q.running ≡ false → q.dispatching ≡ false
  pub none_pending : q.dispatching ≡ false → length q.pending ≡ 0

remove_at-length :
    {A : Type 0} (i : ℕ) (xs ys : List A) → remove_at i xs ≡ some ys → length xs ≡ suc (length ys)
unfolding remove_at
remove_at-length i [] ys h = ground (arith, h)
remove_at-length zero (x ∷ xs) ys h = ground (arith, h)
remove_at-length (suc i) (x ∷ xs) ys h = elim (Option-cases (remove_at i xs)) [
  | inl e ↦ absurd (ground (arith, e, h))
  | inr (zs, e) ↦ ground (arith, e, h, remove_at-length i xs zs e)
]

pub Accounts-start : (n k : ℕ) (q : InMemoryQueue) → Accounts n k q → Accounts n k (start q).1
unfolding start
Accounts-start n k q a = record {
  channel_bound = ground (arith, a.channel_bound);
  pool_bound = ground (arith, a.pool_bound);
  taken = ground (arith, a.taken);
  ended = ground (arith, a.ended);
  no_handler = ground (arith, a.no_handler, a.no_dispatcher, a.none_pending);
  no_dispatcher = ground (arith, a.no_handler, a.no_dispatcher, a.none_pending);
  none_pending = ground (arith, a.no_handler, a.no_dispatcher, a.none_pending);
}

pub Accounts-subscribe :
    (n k : ℕ) (q : InMemoryQueue) (topic : String) (handler : ℕ)
    → Accounts n k q
    → Accounts n k (subscribe topic handler q).1
unfolding subscribe
Accounts-subscribe n k q topic handler a = record {
  channel_bound = ground (arith, a.channel_bound);
  pool_bound = ground (arith, a.pool_bound);
  taken = ground (arith, a.taken);
  ended = ground (arith, a.ended);
  no_handler = ground (arith, a.no_handler, a.no_dispatcher, a.none_pending);
  no_dispatcher = ground (arith, a.no_handler, a.no_dispatcher, a.none_pending);
  none_pending = ground (arith, a.no_handler, a.no_dispatcher, a.none_pending);
}

pub Accounts-unsubscribe :
    (n k : ℕ) (q : InMemoryQueue) (topic : String)
    → Accounts n k q
    → Accounts n k (unsubscribe topic q)
unfolding unsubscribe
Accounts-unsubscribe n k q topic a = record {
  channel_bound = a.channel_bound;
  pool_bound = a.pool_bound;
  taken = a.taken;
  ended = a.ended;
  no_handler = a.no_handler;
  no_dispatcher = a.no_dispatcher;
  none_pending = a.none_pending;
}

pub Accounts-publish :
    (n k : ℕ) (q q' : InMemoryQueue) (m : Message)
    → Accounts n k q
    → step (publishes m) q ≡ some q'
    → Accounts n k q'
unfolding step publish
Accounts-publish n k q q' m a h = record {
  channel_bound = ground (arith, h, a.channel_bound, length-append q.messages (m ∷ []));
  pool_bound = ground (arith, h, a.pool_bound);
  taken = ground (arith, h, a.taken, length-append q.messages (m ∷ []));
  ended = ground (arith, h, a.ended);
  no_handler = ground (arith, h, a.no_handler, a.no_dispatcher, a.none_pending);
  no_dispatcher = ground (arith, h, a.no_handler, a.no_dispatcher, a.none_pending);
  none_pending = ground (arith, h, a.no_handler, a.no_dispatcher, a.none_pending);
}

pub Accounts-receive :
    (n k : ℕ) (q q' : InMemoryQueue) → Accounts n k q → receive q ≡ some q' → Accounts n (suc k) q'
unfolding receive
Accounts-receive n k q q' a h = record {
  channel_bound = ground (arith, h, a.channel_bound);
  pool_bound = ground (arith, h, a.pool_bound);
  taken = ground (arith, h, a.taken);
  ended = ground (arith, h, a.ended);
  no_handler = ground (arith, h, a.no_handler, a.no_dispatcher, a.none_pending);
  no_dispatcher = ground (arith, h, a.no_handler, a.no_dispatcher, a.none_pending);
  none_pending = ground (arith, h, a.no_handler, a.no_dispatcher, a.none_pending);
}

pub Accounts-dispatch :
    (n k : ℕ) (q q' : InMemoryQueue) → Accounts n k q → dispatch q ≡ some q' → Accounts (suc n) k q'
unfolding dispatch
Accounts-dispatch n k q q' a h = record {
  channel_bound = ground (arith, h, a.channel_bound);
  pool_bound = ground (arith, h, a.pool_bound);
  taken = ground (arith, h, a.taken);
  ended = ground (arith, h, a.ended);
  no_handler = ground (arith, h, a.no_handler, a.no_dispatcher, a.none_pending);
  no_dispatcher = ground (arith, h, a.no_handler, a.no_dispatcher, a.none_pending);
  none_pending = ground (arith, h, a.no_handler, a.no_dispatcher, a.none_pending);
}

pub Accounts-finish :
    (n k i : ℕ) (how : Ending) (q q' : InMemoryQueue)
    → Accounts n k q
    → finish i how q ≡ some q'
    → Accounts n k q'
unfolding finish
Accounts-finish n k i how q q' a h = elim (Option-cases (remove_at i q.in_flight)) [
  | inl e ↦ absurd (ground (arith, e, h))
  | inr (others, e) ↦
      let same : some (end_as how (record q { in_flight = others })) ≡ some q' =
        ground (arith, e, h) in
      subst (Accounts n k) (some-injective _ _ same)
        (ended_as how others (remove_at-length i q.in_flight others e))
]
  where
    ended_as :
        (how : Ending) (others : List (ℕ × Message))
        → length q.in_flight ≡ suc (length others)
        → Accounts n k (end_as how (record q { in_flight = others }))
    ended_as fine others less = record {
      channel_bound = a.channel_bound;
      pool_bound = omega (arith, a.pool_bound, less);
      taken = a.taken;
      ended = omega (arith, a.ended, less);
      no_handler = ground (arith, less, a.no_handler);
      no_dispatcher = a.no_dispatcher;
      none_pending = a.none_pending;
    }
    ended_as failed others less = record {
      channel_bound = a.channel_bound;
      pool_bound = omega (arith, a.pool_bound, less);
      taken = a.taken;
      ended = omega (arith, a.ended, less);
      no_handler = ground (arith, less, a.no_handler);
      no_dispatcher = a.no_dispatcher;
      none_pending = a.none_pending;
    }
    ended_as panicked others less = record {
      channel_bound = a.channel_bound;
      pool_bound = omega (arith, a.pool_bound, less);
      taken = a.taken;
      ended = omega (arith, a.ended, less);
      no_handler = ground (arith, less, a.no_handler);
      no_dispatcher = a.no_dispatcher;
      none_pending = a.none_pending;
    }

pub Accounts-release :
    (n k : ℕ) (q q' : InMemoryQueue) → Accounts n k q → release q ≡ some q' → Accounts n k q'
unfolding release
Accounts-release n k q q' a h = record {
  channel_bound = ground (arith, h, a.channel_bound);
  pool_bound = ground (arith, h, a.pool_bound);
  taken = ground (arith, h, a.taken);
  ended = ground (arith, h, a.ended);
  no_handler = ground (arith, h, a.no_handler);
  no_dispatcher = ground (arith, h, a.no_dispatcher);
  none_pending = ground (arith, h, a.none_pending);
}

pub Accounts-release_panicked :
    (n k : ℕ) (q q' : InMemoryQueue)
    → Accounts n k q
    → release_panicked q ≡ some q'
    → Accounts n k q'
unfolding release_panicked
Accounts-release_panicked n k q q' a h = record {
  channel_bound = ground (arith, h, a.channel_bound);
  pool_bound = ground (arith, h, a.pool_bound);
  taken = ground (arith, h, a.taken);
  ended = ground (arith, h, a.ended);
  no_handler = ground (arith, h, a.no_handler);
  no_dispatcher = ground (arith, h, a.no_dispatcher);
  none_pending = ground (arith, h, a.none_pending);
}

pub Accounts-count_panic :
    (n k : ℕ) (q q' : InMemoryQueue) → Accounts n k q → count_panic q ≡ some q' → Accounts n k q'
unfolding count_panic
Accounts-count_panic n k q q' a h = record {
  channel_bound = ground (arith, h, a.channel_bound);
  pool_bound = ground (arith, h, a.pool_bound);
  taken = ground (arith, h, a.taken);
  ended = ground (arith, h, a.ended);
  no_handler = ground (arith, h, a.no_handler);
  no_dispatcher = ground (arith, h, a.no_dispatcher);
  none_pending = ground (arith, h, a.none_pending);
}

pub Accounts-begin_stop :
    (n k : ℕ) (q : InMemoryQueue) → Accounts n k q → Accounts n k (begin_stop q)
unfolding begin_stop
Accounts-begin_stop n k q a = record {
  channel_bound = ground (arith, a.channel_bound);
  pool_bound = ground (arith, a.pool_bound);
  taken = ground (arith, a.taken);
  ended = ground (arith, a.ended);
  no_handler = ground (arith, a.no_handler, a.no_dispatcher, a.none_pending);
  no_dispatcher = ground (arith, a.no_handler, a.no_dispatcher, a.none_pending);
  none_pending = ground (arith, a.no_handler, a.no_dispatcher, a.none_pending);
}

pub Accounts-begin_close :
    (n k : ℕ) (q : InMemoryQueue) → Accounts n k q → Accounts n k (begin_close q)
unfolding begin_close begin_stop
Accounts-begin_close n k q a = record {
  channel_bound = ground (arith, a.channel_bound);
  pool_bound = ground (arith, a.pool_bound);
  taken = ground (arith, a.taken);
  ended = ground (arith, a.ended);
  no_handler = ground (arith, a.no_handler, a.no_dispatcher, a.none_pending);
  no_dispatcher = ground (arith, a.no_handler, a.no_dispatcher, a.none_pending);
  none_pending = ground (arith, a.no_handler, a.no_dispatcher, a.none_pending);
}

pub Accounts-drain :
    (n k : ℕ) (q q' : InMemoryQueue) → Accounts n k q → drain q ≡ some q' → Accounts n k q'
unfolding drain
Accounts-drain n k q q' a h = record {
  channel_bound = ground (arith, h, a.channel_bound);
  pool_bound = ground (arith, h, a.pool_bound);
  taken = ground (arith, h, a.taken);
  ended = ground (arith, h, a.ended);
  no_handler = ground (arith, h, a.no_handler, a.no_dispatcher, a.none_pending);
  no_dispatcher = ground (arith, h, a.no_handler, a.no_dispatcher, a.none_pending);
  none_pending = ground (arith, h, a.no_handler, a.no_dispatcher, a.none_pending);
}

pub Accounts-end_stop :
    (n k : ℕ) (q q' : InMemoryQueue) → Accounts n k q → end_stop q ≡ some q' → Accounts n k q'
unfolding end_stop
Accounts-end_stop n k q q' a h = record {
  channel_bound = ground (arith, h, a.channel_bound);
  pool_bound = ground (arith, h, a.pool_bound);
  taken = ground (arith, h, a.taken);
  ended = ground (arith, h, a.ended);
  no_handler = ground (arith, h, a.no_handler, a.no_dispatcher, a.none_pending);
  no_dispatcher = ground (arith, h, a.no_handler, a.no_dispatcher, a.none_pending);
  none_pending = ground (arith, h, a.no_handler, a.no_dispatcher, a.none_pending);
}
