-- ===== src/HttpClient/Shutdown.antt =====
-- When `Shutdown` returns: once the loop of every subscription that it found has seen its context done, and
-- never while one of these contexts lasts.
use gpu_telemetry_pipeline.Base.{
  ℕ, zero, suc, String, Bool, true, false, ◌==◌, Option, none, some, List, [], ◌∷◌, ◌++◌, ◌≡◌, refl,
  inl, inr, str_eq, if◌then◌else◌, Dict, lookup, lookup-insert, lookup-delete, length, get_elem?,
  Option-cases, Bool-cases, All, arith,
}
use gpu_telemetry_pipeline.HttpClient.Subscriptions.{
  Subscription, Subscriptions, alter, put, subscribe, unsubscribe, cancel, look, begin_shutdown,
  awaited, has_shut_down, Event, subscribes, unsubscribes, subscriber_cancels, loop_looks,
  shutdown_begins, step, run,
}

abbrev mapped : (Subscription → Subscription) → Option Subscription → Option Subscription
mapped f none = none
mapped f (some s) = some (f s)

get_elem?-alter :
    (i j : ℕ) (f : Subscription → Subscription) (ss : List Subscription)
    → get_elem? (alter j f ss) i ≡ (if j == i then mapped f (get_elem? ss i) else get_elem? ss i)
unfolding alter
get_elem?-alter i j f [] = ground arith
get_elem?-alter zero zero f (s ∷ ss) = ground arith
get_elem?-alter (suc i) zero f (s ∷ ss) = ground arith
get_elem?-alter zero (suc j) f (s ∷ ss) = ground arith
get_elem?-alter (suc i) (suc j) f (s ∷ ss) = ground (arith, get_elem?-alter i j f ss)

get_elem?-append :
    (i : ℕ) (ss ts : List Subscription) (s : Subscription)
    → get_elem? ss i ≡ some s
    → get_elem? (ss ++ ts) i ≡ some s
get_elem?-append i [] ts s h = absurd (cc)
get_elem?-append zero (x ∷ ss) ts s h = h
get_elem?-append (suc i) (x ∷ ss) ts s h = get_elem?-append i ss ts s h

get_elem?-length :
    (i : ℕ) (ss : List Subscription) (s : Subscription)
    → get_elem? ss i ≡ some s
    → (length ss == i) ≡ false
get_elem?-length i [] s h = absurd (cc)
get_elem?-length zero (x ∷ ss) s h = ground arith
get_elem?-length (suc i) (x ∷ ss) s h = ground (arith, get_elem?-length i ss s h)

-- A subscription to the topic, and to no other, whose context is not done.
pub record IsKept (topic : String) (i : ℕ) (c : Subscriptions) : Type 0 where
  pub subscription : Subscription
  pub is_there : get_elem? c.objects i ≡ some subscription
  pub not_cancelled : subscription.is_cancelled ≡ false
  pub not_done : subscription.is_done ≡ false
  pub owned : (t : String) → lookup t c.entries ≡ some i → str_eq t topic ≡ true

-- The events that end a subscription to the topic.
abbrev pub gives_up : String → ℕ → Event → Bool
gives_up topic i (unsubscribes t) = str_eq t topic
gives_up topic i (subscriber_cancels j) = j == i
gives_up topic i (subscribes t handler cancelled) = false
gives_up topic i (loop_looks j) = false
gives_up topic i shutdown_begins = false

IsKept-subscribe :
    (topic t : String) (i handler : ℕ) (cancelled : Bool) (c : Subscriptions)
    → IsKept topic i c
    → IsKept topic i (subscribe t handler cancelled c).1
unfolding subscribe put
IsKept-subscribe topic t i handler cancelled c k = elim (Option-cases (lookup t c.entries)) [
  | inr (j, e) ↦ rw (subscribe, e) k
  | inl e ↦
      rw (subscribe, e)
        (record {
          subscription = k.subscription;
          is_there = get_elem?-append i c.objects _ k.subscription k.is_there;
          not_cancelled = k.not_cancelled;
          not_done = k.not_done;
          owned = λ u h. ground (
            arith,
            h,
            k.owned u,
            lookup-insert t u (length c.objects) c.entries,
            get_elem?-length i c.objects k.subscription k.is_there,
          );
        })
]

==-eq : (j i : ℕ) → (j == i) ≡ true → j ≡ i
==-eq j i h = ground (arith, h)

-- Another object is altered.
IsKept-alter :
    (topic : String) (i j : ℕ) (f : Subscription → Subscription) (entries : Dict ℕ)
    (c : Subscriptions)
    → (j == i) ≡ false
    → ((t : String) → lookup t entries ≡ some i → lookup t c.entries ≡ some i)
    → IsKept topic i c
    → IsKept topic i (record c { entries = entries; objects = alter j f c.objects })
IsKept-alter topic i j f entries c n fewer k = record {
  subscription = k.subscription;
  is_there = ground (arith, n, k.is_there, get_elem?-alter i j f c.objects);
  not_cancelled = k.not_cancelled;
  not_done = k.not_done;
  owned = λ t h. k.owned t (fewer t h);
}

IsKept-unsubscribe :
    (topic t : String) (i : ℕ) (c : Subscriptions)
    → str_eq t topic ≡ false
    → IsKept topic i c
    → IsKept topic i (unsubscribe t c).1
unfolding unsubscribe
IsKept-unsubscribe topic t i c g k = elim (Option-cases (lookup t c.entries)) [
  | inl e ↦ rw (unsubscribe, e) k
  | inr (j, e) ↦ elim (Bool-cases (j == i)) [
    | inl same ↦ absurd (ground (arith, g, k.owned t (rw (e, ==-eq j i same) refl)))
    | inr n ↦
        rw (unsubscribe, e)
          (IsKept-alter topic i j cancel _ c n
            (λ u h. ground (arith, h, lookup-delete t u c.entries)) k)
  ]
]

IsKept-look :
    (topic : String) (i j : ℕ) (c : Subscriptions)
    → IsKept topic i c
    → IsKept topic i (record c { objects = alter j look c.objects })
IsKept-look topic i j c k = record {
  subscription = if j == i then look k.subscription else k.subscription;
  is_there = ground (arith, k.is_there, get_elem?-alter i j look c.objects);
  not_cancelled = ground (arith, k.not_cancelled);
  not_done = ground (arith, k.not_cancelled, k.not_done);
  owned = k.owned;
}

IsKept-step :
    (topic : String) (i : ℕ) (e : Event) (c : Subscriptions)
    → gives_up topic i e ≡ false
    → IsKept topic i c
    → IsKept topic i (step e c)
unfolding step begin_shutdown
IsKept-step topic i (subscribes t handler cancelled) c g k =
    IsKept-subscribe topic t i handler cancelled c k
IsKept-step topic i (unsubscribes t) c g k = IsKept-unsubscribe topic t i c g k
IsKept-step topic i (subscriber_cancels j) c g k =
    IsKept-alter topic i j cancel c.entries c g (λ t h. h) k
IsKept-step topic i (loop_looks j) c g k = IsKept-look topic i j c k
IsKept-step topic i shutdown_begins c g k = record {
  subscription = k.subscription;
  is_there = k.is_there;
  not_cancelled = k.not_cancelled;
  not_done = k.not_done;
  owned = k.owned;
}

IsKept-run :
    (topic : String) (i : ℕ) (es : List Event) (c : Subscriptions)
    → All (λ e. gives_up topic i e ≡ false) es
    → IsKept topic i c
    → IsKept topic i (run es c)
unfolding run
IsKept-run topic i [] c g k = k
IsKept-run topic i (e ∷ es) c g k =
    IsKept-run topic i es (step e c) g.1 (IsKept-step topic i e c g.0 k)

not_done-waits :
    (topic : String) (i : ℕ) (entries : Dict ℕ) (s : Subscription) (objects : List Subscription)
    → lookup topic entries ≡ some i
    → get_elem? objects i ≡ some s
    → s.is_done ≡ false
    → has_shut_down (awaited entries) objects ≡ false
unfolding lookup awaited has_shut_down
not_done-waits topic i [] s objects h e d = absurd (ground (arith, h))
not_done-waits topic i (entry ∷ entries) s objects h e d =
    ground (arith, h, e, d, not_done-waits topic i entries s objects)

-- Where `Stop` or `Close` is called while the client has a subscription to a topic whose subscriber's
-- context is not done: whatever happens next, new subscriptions to other topics or later ones to any
-- topic and ends of others among it, as long as that context is not done and the topic is not
-- unsubscribed, the call does not return. The cancelling of the client's own context ends no loop.
pub run-not_shut_down :
    (topic : String) (i : ℕ) (es : List Event) (c : Subscriptions)
    → IsKept topic i c
    → lookup topic c.entries ≡ some i
    → All (λ e. gives_up topic i e ≡ false) es
    → has_shut_down (awaited c.entries) (run es (begin_shutdown c)).objects ≡ false
unfolding step
run-not_shut_down topic i es c k h g =
    let kept =
      IsKept-run topic i es (begin_shutdown c) g (IsKept-step topic i shutdown_begins c refl k) in
    not_done-waits topic i c.entries kept.subscription _ h kept.is_there kept.not_done

-- At some point of these events the object's context is done and its loop looks at it.
pub data Sees (i : ℕ) : Subscriptions → List Event → Type 0 where
  now :
      (c : Subscriptions) (s : Subscription) (es : List Event)
      → get_elem? c.objects i ≡ some s
      → s.is_cancelled ≡ true
      → Sees i c (loop_looks i ∷ es)
  later :
      (c : Subscriptions) (e : Event) (es : List Event) → Sees i (step e c) es → Sees i c (e ∷ es)

-- The loop of the object has ended.
record Ended (i : ℕ) (c : Subscriptions) : Type 0 where
  subscription : Subscription
  is_there : get_elem? c.objects i ≡ some subscription
  is_done : subscription.is_done ≡ true

Ended-alter :
    (i j : ℕ) (f : Subscription → Subscription) (entries : Dict ℕ) (c : Subscriptions)
    → ((s : Subscription) → s.is_done ≡ true → (f s).is_done ≡ true)
    → Ended i c
    → Ended i (record c { entries = entries; objects = alter j f c.objects })
Ended-alter i j f entries c stays d = record {
  subscription = if j == i then f d.subscription else d.subscription;
  is_there = ground (arith, d.is_there, get_elem?-alter i j f c.objects);
  is_done = ground (arith, d.is_done, stays d.subscription);
}

Ended-step : (i : ℕ) (e : Event) (c : Subscriptions) → Ended i c → Ended i (step e c)
unfolding step subscribe put unsubscribe begin_shutdown
Ended-step i (subscribes t handler cancelled) c d = elim (Option-cases (lookup t c.entries)) [
  | inr (j, e) ↦ rw (step, subscribe, e) d
  | inl e ↦
      rw (step, subscribe, e)
        (record {
          subscription = d.subscription;
          is_there = get_elem?-append i c.objects _ d.subscription d.is_there;
          is_done = d.is_done;
        })
]
Ended-step i (unsubscribes t) c d = elim (Option-cases (lookup t c.entries)) [
  | inl e ↦ rw (step, unsubscribe, e) d
  | inr (j, e) ↦ rw (step, unsubscribe, e) (Ended-alter i j cancel _ c (λ s h. h) d)
]
Ended-step i (subscriber_cancels j) c d = Ended-alter i j cancel c.entries c (λ s h. h) d
Ended-step i (loop_looks j) c d = Ended-alter i j look c.entries c (λ s h. ground (arith, h)) d
Ended-step i shutdown_begins c d = record {
  subscription = d.subscription;
  is_there = d.is_there;
  is_done = d.is_done;
}

Ended-run : (i : ℕ) (es : List Event) (c : Subscriptions) → Ended i c → Ended i (run es c)
unfolding run
Ended-run i [] c d = d
Ended-run i (e ∷ es) c d = Ended-run i es (step e c) (Ended-step i e c d)

Sees-Ended : (i : ℕ) (es : List Event) (c : Subscriptions) → Sees i c es → Ended i (run es c)
unfolding run step
Sees-Ended i _ _ (now c s es e d) = Ended-run i es (step (loop_looks i) c) (record {
  subscription = look s;
  is_there = ground (arith, e, get_elem?-alter i i look c.objects);
  is_done = ground (arith, d);
})
Sees-Ended i _ _ (later c e es l) = Sees-Ended i es (step e c) l

nobody_open :
    (subs : List ℕ) (c : Subscriptions)
    → All (λ i. Ended i c) subs
    → has_shut_down subs c.objects ≡ true
unfolding has_shut_down
nobody_open [] c a = refl
nobody_open (i ∷ subs) c a = ground (arith, a.0.is_there, a.0.is_done, nobody_open subs c a.1)

All-map : {P Q : ℕ → Type 0} (xs : List ℕ) → ((i : ℕ) → P i → Q i) → All P xs → All Q xs
All-map [] f a = tt
All-map (x ∷ xs) f a = (f x a.0, All-map xs f a.1)

-- `Stop` and `Close` return, whatever else happens in between, new subscriptions and ends of
-- subscriptions among it, once each subscription that the client had when they were called has come to a
-- point where its context is done and its loop looks at it.
pub run-shut_down :
    (es : List Event) (c : Subscriptions)
    → All (λ i. Sees i (begin_shutdown c) es) (awaited c.entries)
    → has_shut_down (awaited c.entries) (run es (begin_shutdown c)).objects ≡ true
run-shut_down es c a =
    nobody_open (awaited c.entries) (run es (begin_shutdown c))
      (All-map (awaited c.entries) (λ i. Sees-Ended i es (begin_shutdown c)) a)
