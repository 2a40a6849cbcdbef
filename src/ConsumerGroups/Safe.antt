-- ===== src/ConsumerGroups/Safe.antt =====
-- Registrations, deliveries and streams in any order: none panics.
use gpu_telemetry_pipeline.Base.{
  ℕ, zero, suc, ◌+◌, ◌%◌, ◌<◌, String, Bool, true, false, Option, none, some, List, [], ◌∷◌, ◌≡◌,
  ◌≢◌, refl, lookup, length, get_elem?, arith,
}
use native.Mathlib.Nat.{mod-lt}
use gpu_telemetry_pipeline.Message.{Message}
use gpu_telemetry_pipeline.Redis.{Redis}
use gpu_telemetry_pipeline.RedisQueue.{
  RedisQueue, Result, ok, err, panicked, pop_message, add_to_pel, requeue_message,
}
use gpu_telemetry_pipeline.ConsumerGroups.{Broker, new_broker, find_group, find_consumer}
use gpu_telemetry_pipeline.ConsumerGroups.Deliveries.{
  Round, Event, registers, unregisters, delivers, reads, after_tracking, after_pop, deliver_message,
  deliver_one, step, run,
}
use gpu_telemetry_pipeline.ConsumerGroups.Open.{IsSound, register-IsSound}
use gpu_telemetry_pipeline.ConsumerGroups.Leaving.{
  stream_turn-IsSound, deliver_to_consumer-Succeeds, unregister_consumer-Succeeds,
}

pub get_elem?-in_range :
    {A : Type 0} (xs : List A) (i : ℕ) → i < length xs → (x : A) × (get_elem? xs i ≡ some x)
get_elem?-in_range [] i h = absurd (omega (arith, h))
get_elem?-in_range (x ∷ xs) zero h = (x, refl)
get_elem?-in_range (x ∷ xs) (suc i) h = get_elem?-in_range xs i (omega (arith, h))

-- A round that is not a panic, with sound groups after it.
pub record Goes ⦃R : Redis⦄ (r : Option Round) : Type 0 where
  pub after : Round
  pub is_some : r ≡ some after
  pub is_sound : IsSound after.broker

module _ ⦃R : Redis⦄ where
  open R use {Store}

  pop_message-ne-panicked :
      (topic : String) (q : RedisQueue Store) → (pop_message topic q).0 ≢ panicked
  unfolding pop_message
  pop_message-ne-panicked topic q h = ground (arith, h)

  add_to_pel-ne-panicked :
      (now : ℕ) (m : Message) (g c : String) (q : RedisQueue Store)
      → (add_to_pel now m g c q).0 ≢ panicked
  unfolding add_to_pel
  add_to_pel-ne-panicked now m g c q h = ground (arith, h)

  after_tracking-Goes :
      (t g c : String) (m : Message) (out : Result (Unit {0}) × RedisQueue Store) (b : Broker)
      (i : ℕ)
      → out.0 ≢ panicked
      → IsSound b
      → Goes (after_tracking t g c m out b i)
  after_tracking-Goes t g c m (ok u, q) b i h s =
      let sent = deliver_to_consumer-Succeeds t g c m b s in
      record {
        after = record { queue = q; broker = sent.after; consumer_index = i };
        is_some = rw (after_tracking, sent.is_some) refl;
        is_sound = sent.is_sound;
      }
  after_tracking-Goes t g c m (err e, q) b i h s = record {
    after = record { queue = (requeue_message m q).1; broker = b; consumer_index = i };
    is_some = refl;
    is_sound = s;
  }
  after_tracking-Goes t g c m (panicked, q) b i h s = absurd (h refl)

  deliver_message-Goes :
      (now : ℕ) (t g first : String) (others : List String) (m : Message) (q : RedisQueue Store)
      (b : Broker) (i : ℕ)
      → IsSound b
      → Goes (deliver_message now t g (first ∷ others) m q b i)
  unfolding deliver_message
  deliver_message-Goes now t g first others m q b i s =
      let n = length (first ∷ others) in
      let inside : i % n < n = mod-lt i (omega arith) in
      let (c, e) = get_elem?-in_range (first ∷ others) (i % n) inside in
      rw (deliver_message, e)
        (after_tracking-Goes t g c m (add_to_pel now m g c q) b (i + 1)
          (add_to_pel-ne-panicked now m g c q) s)

  after_pop-Goes :
      (now : ℕ) (t g first : String) (others : List String)
      (out : Result (Option Message) × RedisQueue Store) (b : Broker) (i : ℕ)
      → out.0 ≢ panicked
      → IsSound b
      → (r : Bool × Round) × (after_pop now t g (first ∷ others) out b i ≡ some r)
        × IsSound r.1.broker
  after_pop-Goes now t g first others (ok (some m), q) b i h s =
      let went = deliver_message-Goes now t g first others m q b i s in
      ((true, went.after), rw (after_pop, went.is_some) refl, went.is_sound)
  after_pop-Goes now t g first others (ok none, q) b i h s =
      ((false, record { queue = q; broker = b; consumer_index = i }), refl, s)
  after_pop-Goes now t g first others (err e, q) b i h s =
      ((false, record { queue = q; broker = b; consumer_index = i }), refl, s)
  after_pop-Goes now t g first others (panicked, q) b i h s = absurd (h refl)

  pub step-Goes :
      (marshal : Message → Option String) (e : Event) (r : Round)
      → IsSound r.broker
      → Goes (step marshal e r)
  unfolding step deliver_one
  step-Goes marshal (registers t g i) r s = record {
    after = _;
    is_some = refl;
    is_sound = register-IsSound t g i r.broker s;
  }
  step-Goes marshal (unregisters t g i) r s =
      let gone = unregister_consumer-Succeeds t g i r.broker s in
      record {
        after = record r { broker = gone.after };
        is_some = rw (gone.is_some) refl;
        is_sound = gone.is_sound;
      }
  step-Goes marshal (delivers now t g first others) r s =
      let (out, e, sound) =
        after_pop-Goes now t g first others (pop_message t r.queue) r.broker r.consumer_index
          (pop_message-ne-panicked t r.queue) s in
      record { after = out.1; is_some = rw e refl; is_sound = sound }
  step-Goes marshal (reads ch) r s = record {
    after = _;
    is_some = refl;
    is_sound = stream_turn-IsSound marshal ch r.broker s;
  }

  run-Goes :
      (marshal : Message → Option String) (es : List Event) (r : Round)
      → IsSound r.broker
      → Goes (run marshal es r)
  unfolding run
  run-Goes marshal [] r s = record { after = r; is_some = refl; is_sound = s }
  run-Goes marshal (e ∷ es) r s =
      let went = step-Goes marshal e r s in
      let rest = run-Goes marshal es went.after went.is_sound in
      record {
        after = rest.after;
        is_some = rw (run, went.is_some) rest.is_some;
        is_sound = rest.is_sound;
      }

nobody : (t g i : String) → find_consumer t g i new_broker ≡ none
unfolding new_broker find_group lookup
nobody t g i = refl

pub new_broker-IsSound : IsSound new_broker
new_broker-IsSound = record {
  is_open = λ t g i c h. absurd (ground (arith, h, nobody t g i));
  own = λ t g i t' g' i' c c' h h' e. absurd (ground (arith, h, nobody t g i));
  served = λ t g i c h. absurd (ground (arith, h, nobody t g i));
  bounded = λ ch. unfold new_broker in omega arith;
}

module _ ⦃R : Redis⦄ where
  -- From a new broker, consumers may register and leave, goroutines deliver to those they read of
  -- earlier, gone or not, and streams read, in any order and whatever Redis does: no step panics, since
  -- no channel is closed twice and none is sent on once it is closed. In the end each consumer has a
  -- channel that is open and that no other consumer has, a delivery goroutine runs for its group, and no
  -- channel holds more than 100 messages.
  pub run-Goes_new :
      (marshal : Message → Option String) (es : List Event) (q : RedisQueue R.Store)
      → Goes (run marshal es (record { queue = q; broker = new_broker; consumer_index = 0 }))
  run-Goes_new marshal es q =
      run-Goes marshal es (record { queue = q; broker = new_broker; consumer_index = 0 })
        new_broker-IsSound
