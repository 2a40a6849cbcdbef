-- ===== src/ConsumerGroups/Leaving.antt =====
-- Deliveries, reads and consumers that leave keep the groups sound.
use gpu_telemetry_pipeline.Base.{
  ℕ, ◌≤◌, String, true, false, Option, none, some, [], ◌∷◌, ◌++◌, ◌≡◌, refl, ap, ◌∙◌, inl, inr,
  ◌==◌, ltb, if◌then◌else◌, delete, lookup-delete, length, length-append, Option-cases, List-cases,
  Bool-cases, arith,
}
use gpu_telemetry_pipeline.Message.{Message}
use gpu_telemetry_pipeline.ConsumerGroups.{
  QueueConsumer, Channel, Broker, find_group, consumers_of, put_consumers, find_consumer,
  unregister_consumer, remove_consumer, send, deliver_to_consumer, stream_turn, set_channel,
}
use gpu_telemetry_pipeline.ConsumerGroups.Open.{IsSound, same_consumer, find_consumer-put}

-- What a channel holds does not matter.
IsSound-channels :
    (b : Broker) (channels : ℕ → Channel)
    → ((ch : ℕ) → (channels ch).is_closed ≡ (b.channels ch).is_closed)
    → ((ch : ℕ) → length (channels ch).messages ≤ 100)
    → IsSound b
    → IsSound (record b { channels = channels })
unfolding find_group
IsSound-channels b channels h k s = record {
  is_open = λ t g i c e. let old = s.is_open t g i c e in (old.0, h c.events_ch ∙ old.1);
  own = s.own;
  served = s.served;
  bounded = k;
}

set_channel-is_closed :
    (ch : ℕ) (c : Channel) (channels : ℕ → Channel)
    → c.is_closed ≡ (channels ch).is_closed
    → (k : ℕ) → (set_channel ch c channels k).is_closed ≡ (channels k).is_closed
set_channel-is_closed ch c channels h k = elim (Bool-cases (ch == k)) [
  | inl e ↦
      let same : ch ≡ k = ground (arith, e) in rw (e) (h ∙ ap (λ j. (channels j).is_closed) same)
  | inr e ↦ rw (e) refl
]

set_channel-bounded :
    (ch : ℕ) (c : Channel) (channels : ℕ → Channel)
    → length c.messages ≤ 100
    → ((k : ℕ) → length (channels k).messages ≤ 100)
    → (k : ℕ) → length (set_channel ch c channels k).messages ≤ 100
set_channel-bounded ch c channels h old k = ground (arith, h, old k)

pub stream_turn-IsSound :
    (marshal : Message → Option String) (ch : ℕ) (b : Broker)
    → IsSound b
    → IsSound (stream_turn marshal ch b).1
unfolding stream_turn
stream_turn-IsSound marshal ch b s = elim (List-cases (b.channels ch).messages) [
  | inl e ↦ rw (stream_turn, e) s
  | inr (m, ms, e) ↦
      rw (stream_turn, e)
        (IsSound-channels b _ (set_channel-is_closed ch _ b.channels refl)
          (set_channel-bounded ch _ b.channels (ground (arith, e, s.bounded ch)) s.bounded) s)
]

-- The operation does not panic, and keeps the groups sound.
pub record Succeeds (r : Option Broker) : Type 0 where
  pub after : Broker
  pub is_some : r ≡ some after
  pub is_sound : IsSound after

send-Succeeds :
    (ch : ℕ) (m : Message) (b : Broker)
    → (b.channels ch).is_closed ≡ false
    → IsSound b
    → Succeeds (send ch m b)
unfolding send
send-Succeeds ch m b h s = elim (Bool-cases (ltb (length (b.channels ch).messages) 100)) [
  | inl e ↦ record {
    after = record b {
      channels =
          set_channel ch (record (b.channels ch) { messages = (b.channels ch).messages ++ m ∷ [] })
            b.channels;
    };
    is_some = rw (h, e) refl;
    is_sound =
        IsSound-channels b _ (set_channel-is_closed ch _ b.channels refl)
          (set_channel-bounded ch _ b.channels
            (ground (arith, e, length-append (b.channels ch).messages (m ∷ []))) s.bounded)
          s;
  }
  | inr e ↦ record { after = b; is_some = rw (h, e) refl; is_sound = s }
]

pub deliver_to_consumer-Succeeds :
    (t g i : String) (m : Message) (b : Broker)
    → IsSound b
    → Succeeds (deliver_to_consumer t g i m b)
unfolding deliver_to_consumer
deliver_to_consumer-Succeeds t g i m b s = elim (Option-cases (find_consumer t g i b)) [
  | inl e ↦ rw e (record { after = b; is_some = refl; is_sound = s })
  | inr (c, e) ↦ rw e (send-Succeeds c.events_ch m b (s.is_open t g i c e).1 s)
]

closed_broker : String → String → String → QueueConsumer → Broker → Broker
closed_broker t g i c b = record b {
  consumer_groups = put_consumers t g (delete i (consumers_of (find_group t g b))) b;
  channels =
      set_channel c.events_ch (record (b.channels c.events_ch) { is_closed = true }) b.channels;
}

find_consumer-closed :
    (t g i : String) (c : QueueConsumer) (b : Broker) (t' g' i' : String)
    → find_consumer t' g' i' (closed_broker t g i c b)
      ≡ (if same_consumer t g i t' g' i' then none else find_consumer t' g' i' b)
find_consumer-closed t g i c b t' g' i' =
    find_consumer-put t g i none (delete i (consumers_of (find_group t g b))) b
      (closed_broker t g i c b) (unfold closed_broker in refl)
      (λ j. lookup-delete i j (consumers_of (find_group t g b))) t' g' i'

closed_broker-IsSound :
    (t g i : String) (c : QueueConsumer) (b : Broker)
    → find_consumer t g i b ≡ some c
    → IsSound b
    → IsSound (closed_broker t g i c b)
closed_broker-IsSound t g i c b found s = record {
  is_open = λ t' g' i' c' h.
      let other : same_consumer t g i t' g' i' ≡ false =
        ground (arith, h, find_consumer-closed t g i c b t' g' i') in
      let old : find_consumer t' g' i' b ≡ some c' =
        ground (arith, h, other, find_consumer-closed t g i c b t' g' i') in
      let apart : c.events_ch == c'.events_ch ≡ false =
        ground (arith, other, s.own t g i t' g' i' c c' found old) in
      let kept = s.is_open t' g' i' c' old in unfold closed_broker in (kept.0, rw apart kept.1);
  own = λ t1 g1 i1 t2 g2 i2 c1 c2 h1 h2 e.
      s.own t1 g1 i1 t2 g2 i2 c1 c2 (ground (arith, h1, find_consumer-closed t g i c b t1 g1 i1))
        (ground (arith, h2, find_consumer-closed t g i c b t2 g2 i2)) e;
  served = λ t' g' i' c' h.
      unfold closed_broker in
      s.served t' g' i' c' (ground (arith, h, find_consumer-closed t g i c b t' g' i'));
  bounded = λ ch.
      unfold closed_broker in
      set_channel-bounded c.events_ch _ b.channels (s.bounded c.events_ch) s.bounded ch;
}

pub unregister_consumer-Succeeds :
    (t g i : String) (b : Broker) → IsSound b → Succeeds (unregister_consumer t g i b)
unfolding unregister_consumer remove_consumer closed_broker
unregister_consumer-Succeeds t g i b s = elim (Option-cases (find_consumer t g i b)) [
  | inl e ↦ rw e (record { after = b; is_some = refl; is_sound = s })
  | inr (c, e) ↦ rw e (record {
    after = closed_broker t g i c b;
    is_some = rw (remove_consumer, (s.is_open t g i c e).1) refl;
    is_sound = closed_broker-IsSound t g i c b e s;
  })
]
