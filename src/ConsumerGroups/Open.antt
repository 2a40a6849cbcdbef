-- ===== src/ConsumerGroups/Open.antt =====
-- No goroutine closes a closed channel or sends on one: each registered consumer has a channel of its
-- own, which is open.
use gpu_telemetry_pipeline.Base.{
  ℕ, ◌<◌, ◌≤◌, String, Bool, true, false, ◌&&◌, ◌||◌, Option, some, List, [], ◌∷◌, ◌++◌, ◌≡◌, refl,
  ap, ◌∙◌, inl, inr, str_eq, str_eq_iff, ◌==◌, if◌then◌else◌, lookup, insert, lookup-insert, length,
  str_eq_refl, Bool-cases, arith,
}
use gpu_telemetry_pipeline.ConsumerGroups.{
  QueueConsumer, Delivery, Broker, find_group, groups_of, consumers_of, put_consumers,
  find_consumer, register_consumer,
}

abbrev pub same_group : String → String → String → String → Bool
same_group t g t' g' = str_eq t t' && str_eq g g'

consumers-put_consumers :
    (t g : String) (cs : List (String × QueueConsumer)) (b b' : Broker) (t' g' : String)
    → b'.consumer_groups ≡ put_consumers t g cs b
    → consumers_of (find_group t' g' b')
      ≡ (if same_group t g t' g' then cs else consumers_of (find_group t' g' b))
unfolding find_group put_consumers
consumers-put_consumers t g cs b b' t' g' h = ground (
  arith,
  h,
  lookup-insert t t' (insert g (record { name = g; consumers = cs }) (groups_of t b))
      b.consumer_groups,
  lookup-insert g g' (record { name = g; consumers = cs }) (groups_of t b),
  str_eq_iff t t',
)

abbrev pub same_consumer : String → String → String → String → String → String → Bool
same_consumer t g i t' g' i' = same_group t g t' g' && str_eq i i'

pub find_consumer-put :
    (t g i : String) (new : Option QueueConsumer) (cs : List (String × QueueConsumer))
    (b b' : Broker)
    → b'.consumer_groups ≡ put_consumers t g cs b
    → ((j : String)
        → lookup j cs ≡ (if str_eq i j then new else lookup j (consumers_of (find_group t g b))))
    → (t' g' i' : String)
    → find_consumer t' g' i' b'
      ≡ (if same_consumer t g i t' g' i' then new else find_consumer t' g' i' b)
find_consumer-put t g i new cs b b' h k t' g' i' = elim (Bool-cases (same_group t g t' g')) [
  | inl e ↦
      let is_topic : t ≡ t' = ground (arith, e, str_eq_iff t t') in
      let is_group : g ≡ g' = ground (arith, e, str_eq_iff g g') in
      let there : consumers_of (find_group t' g' b') ≡ cs =
        ground (arith, e, consumers-put_consumers t g cs b b' t' g' h) in
      let old : find_group t g b ≡ find_group t' g' b = cc (is_topic, is_group) in
      ap (lookup i') there ∙ k i' ∙ rw (e, old) refl
  | inr e ↦
      let there : consumers_of (find_group t' g' b') ≡ consumers_of (find_group t' g' b) =
        ground (arith, e, consumers-put_consumers t g cs b b' t' g' h) in
      ap (lookup i') there ∙ rw e refl
]

-- A delivery goroutine runs for the group.
abbrev pub is_served : String → String → List Delivery → Bool
is_served t g [] = false
is_served t g (d ∷ ds) = same_group d.topic d.consumer_group t g || is_served t g ds

is_served-append :
    (t g : String) (ds : List Delivery) (d : Delivery)
    → is_served t g (ds ++ d ∷ []) ≡ (is_served t g ds || same_group d.topic d.consumer_group t g)
is_served-append t g [] d = ground arith
is_served-append t g (e ∷ ds) d = ground (arith, is_served-append t g ds d)

-- A group that holds more than what is put into it held something.
held_before :
    (i : String) (c : QueueConsumer) (cs : List (String × QueueConsumer))
    → (length (insert i c cs) == 1) ≡ false
    → (j : String) × (old : QueueConsumer) × (lookup j cs ≡ some old)
unfolding insert lookup
held_before i c [] h = absurd (ground (arith, h))
held_before i c (e ∷ es) h = (e.0, e.1, rw (str_eq_refl e.0) refl)

-- Each consumer has a channel that is open and that no other consumer has, and its group has a delivery
-- goroutine; no channel holds more than 100 messages.
pub record IsSound (b : Broker) : Type 0 where
  pub is_open :
      (t g i : String) (c : QueueConsumer)
      → find_consumer t g i b ≡ some c
      → (c.events_ch < b.next) × ((b.channels c.events_ch).is_closed ≡ false)
  pub own :
      (t g i t' g' i' : String) (c c' : QueueConsumer)
      → find_consumer t g i b ≡ some c
      → find_consumer t' g' i' b ≡ some c'
      → c.events_ch ≡ c'.events_ch
      → same_consumer t g i t' g' i' ≡ true
  pub served :
      (t g i : String) (c : QueueConsumer)
      → find_consumer t g i b ≡ some c
      → is_served t g b.deliveries ≡ true
  pub bounded : (ch : ℕ) → length (b.channels ch).messages ≤ 100

find_consumer-register :
    (t g i : String) (b : Broker) (t' g' i' : String)
    → find_consumer t' g' i' (register_consumer t g i b).1 ≡ (
        if same_consumer t g i t' g' i'
        then some (record { id = i; events_ch = b.next })
        else find_consumer t' g' i' b)
find_consumer-register t g i b t' g' i' =
    let new : QueueConsumer = record { id = i; events_ch = b.next } in
    find_consumer-put t g i (some new) (insert i new (consumers_of (find_group t g b))) b
      (register_consumer t g i b).1 (unfold register_consumer in refl)
      (λ j. lookup-insert i j new (consumers_of (find_group t g b))) t' g' i'

served-register :
    (t g i : String) (b : Broker) (t' g' i' : String) (c : QueueConsumer)
    → IsSound b
    → find_consumer t' g' i' (register_consumer t g i b).1 ≡ some c
    → is_served t' g' (register_consumer t g i b).1.deliveries ≡ true
served-register t g i b t' g' i' c s h =
    let new : QueueConsumer = record { id = i; events_ch = b.next } in
    let cs = consumers_of (find_group t g b) in
    let d : Delivery = record { topic = t; consumer_group = g } in
    let appended = is_served-append t' g' b.deliveries d in
    unfold register_consumer in
    elim (Bool-cases (length (insert i new cs) == 1)) [
      | inl one ↦ elim (Bool-cases (same_group t g t' g')) [
        | inl e ↦ rw one (ground (arith, appended, e))
        | inr e ↦ rw one (
            ground
              (arith, appended, e, h, find_consumer-register t g i b t' g' i', s.served t' g' i' c))
      ]
      | inr many ↦ elim (Bool-cases (same_group t g t' g')) [
        | inl e ↦
            let (j, old, there) = held_before i new cs many in
            rw many (ground (arith, e, s.served t g j old there, str_eq_iff t t', str_eq_iff g g'))
        | inr e ↦
            rw many
              (ground (arith, e, h, find_consumer-register t g i b t' g' i', s.served t' g' i' c))
      ]
    ]

pub register-IsSound :
    (t g i : String) (b : Broker) → IsSound b → IsSound (register_consumer t g i b).1
register-IsSound t g i b s = record {
  is_open = λ t' g' i' c h.
      unfold register_consumer in
      elim (Bool-cases (same_consumer t g i t' g' i')) [
        | inl e ↦ ground (arith, e, h, find_consumer-register t g i b t' g' i')
        | inr e ↦
            ground (arith, e, h, find_consumer-register t g i b t' g' i', s.is_open t' g' i' c)
      ];
  own = λ t1 g1 i1 t2 g2 i2 c1 c2 h1 h2 e. ground (
    arith,
    h1,
    h2,
    e,
    find_consumer-register t g i b t1 g1 i1,
    find_consumer-register t g i b t2 g2 i2,
    s.own t1 g1 i1 t2 g2 i2 c1 c2,
    s.is_open t1 g1 i1 c1,
    s.is_open t2 g2 i2 c2,
    str_eq_iff t t1,
    str_eq_iff t t2,
    str_eq_iff g g1,
    str_eq_iff g g2,
    str_eq_iff i i1,
    str_eq_iff i i2,
    str_eq_iff t1 t2,
    str_eq_iff g1 g2,
    str_eq_iff i1 i2,
  );
  served = λ t' g' i' c h. served-register t g i b t' g' i' c s h;
  bounded = λ ch. unfold register_consumer in ground (arith, s.bounded ch);
}
