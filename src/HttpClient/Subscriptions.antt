-- ===== src/HttpClient/Subscriptions.antt =====
-- The subscriptions of an `HTTPQueueClient`. A subscription is an object, which is a place in `objects`; the
-- map of the client leads from a topic to its object. A subscription has the context that its subscriber
-- gave (`is_cancelled` is that this one is done) and a poll loop, which ends when it sees the context done.
-- A handler is a number. `client_cancelled` is the client's own context.
use gpu_telemetry_pipeline.Base.{
  ℕ, zero, suc, String, Bool, true, false, not, ◌||◌, ◌&&◌, Option, none, some, List, [], ◌∷◌, ◌++◌,
  if◌then◌else◌, Dict, lookup, insert, delete, length, get_elem?,
}

pub record Subscription : Type 0 where
  pub handler : ℕ
  pub is_cancelled : Bool
  pub is_done : Bool

pub record Subscriptions : Type 0 where
  pub entries : Dict ℕ
  pub objects : List Subscription
  pub client_cancelled : Bool

pub data SubscriptionError : Type 0 where
  already_subscribed not_subscribed : SubscriptionError

abbrev pub is_none {ℓ} : {A : Type ℓ} → Option A → Bool
is_none none = true
is_none (some a) = false

unfoldable pub new_client : Subscriptions
new_client = record { entries = []; objects = []; client_cancelled = false }

-- A change of one object.
unfoldable pub alter : ℕ → (Subscription → Subscription) → List Subscription → List Subscription
alter i f [] = []
alter zero f (s ∷ ss) = f s ∷ ss
alter (suc i) f (s ∷ ss) = s ∷ alter i f ss

-- A new object under the topic; its context is done if the subscriber's is.
unfoldable pub put : String → ℕ → Bool → Subscriptions → Subscriptions
put topic handler cancelled c = record c {
  entries = insert topic (length c.objects) c.entries;
  objects =
      c.objects ++ record { handler = handler; is_cancelled = cancelled; is_done = false } ∷ [];
}

unfoldable pub subscribe :
    String → ℕ → Bool → Subscriptions → Option SubscriptionError × Subscriptions
subscribe topic handler cancelled c = elim (lookup topic c.entries) [
  | some i ↦ (some already_subscribed, c)
  | none ↦ (none, put topic handler cancelled c)
]

abbrev pub cancel : Subscription → Subscription
cancel s = record s { is_cancelled = true }

-- The loop looks at its context: it ends if that is done.
abbrev pub look : Subscription → Subscription
look s = record s { is_done = s.is_done || s.is_cancelled }

-- The call then waits until the loop of the subscription has ended.
unfoldable pub unsubscribe : String → Subscriptions → Option SubscriptionError × Subscriptions
unsubscribe topic c = elim (lookup topic c.entries) [
  | none ↦ (some not_subscribed, c)
  | some i ↦
      (none, record c { entries = delete topic c.entries; objects = alter i cancel c.objects })
]

-- `Shutdown` begins by cancelling the client's context, and takes the subscriptions that the map has
-- then; for these it waits.
unfoldable pub begin_shutdown : Subscriptions → Subscriptions
begin_shutdown c = record c { client_cancelled = true }

unfoldable pub awaited : Dict ℕ → List ℕ
awaited [] = []
awaited (entry ∷ entries) = entry.1 ∷ awaited entries

abbrev pub done_at : Option Subscription → Bool
done_at none = false
done_at (some s) = s.is_done

-- The waiting of `Shutdown` in a context that never ends, which is that of `Stop` and `Close`: `true` is
-- that it has returned.
unfoldable pub has_shut_down : List ℕ → List Subscription → Bool
has_shut_down [] objects = true
has_shut_down (i ∷ subs) objects =
    if done_at (get_elem? objects i) then has_shut_down subs objects else false

-- The waiting of `Shutdown` in a context that may end: it waits for a subscription, all are closed, or the
-- context's end was seen first. Where a subscription and the context are both done, `prefers` says which one
-- the `select` takes.
pub data Waiting : Type 0 where
  waits all_done expired : Waiting

unfoldable pub await_closed : (ℕ → Bool) → Bool → List ℕ → List Subscription → Waiting
await_closed prefers context_done [] objects = all_done
await_closed prefers context_done (i ∷ subs) objects =
    let rest = await_closed prefers context_done subs objects in
    if done_at (get_elem? objects i) && (not context_done || prefers i)
    then rest
    else if context_done
    then expired
    else waits

-- `Subscribe` looks for the topic and adds the subscription under two holds of the mutex; these are the
-- two. `polls` are the topics of the loops that were started.
pub record Polling : Type 0 where
  pub subscriptions : Subscriptions
  pub polls : List String

unfoldable pub may_subscribe : String → Polling → Bool
may_subscribe topic p = is_none (lookup topic p.subscriptions.entries)

unfoldable pub add_subscription : String → ℕ → Bool → Polling → Polling
add_subscription topic handler cancelled p = record {
  subscriptions = put topic handler cancelled p.subscriptions;
  polls = topic ∷ p.polls;
}

pub data Event : Type 0 where
  subscribes : String → ℕ → Bool → Event
  unsubscribes : String → Event
  subscriber_cancels : ℕ → Event
  loop_looks : ℕ → Event
  shutdown_begins : Event

unfoldable pub step : Event → Subscriptions → Subscriptions
step (subscribes topic handler cancelled) c = (subscribe topic handler cancelled c).1
step (unsubscribes topic) c = (unsubscribe topic c).1
step (subscriber_cancels i) c = record c { objects = alter i cancel c.objects }
step (loop_looks i) c = record c { objects = alter i look c.objects }
step shutdown_begins c = begin_shutdown c

unfoldable pub run : List Event → Subscriptions → Subscriptions
run [] c = c
run (e ∷ es) c = run es (step e c)
