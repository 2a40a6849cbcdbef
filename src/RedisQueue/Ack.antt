-- ===== src/RedisQueue/Ack.antt =====
-- `Ack` and `Nack`: what they take from the pending list, and where a rejected message goes.
use gpu_telemetry_pipeline.Base.{
  ℕ, ◌<◌, String, ◌≡◌, ◌≢◌, refl, sym, ap, ◌∙◌, some, List, [], ◌∷◌, map, arith, str_eq, str_eq_iff,
  str_eq_refl, if◌then◌else◌, Option-cases, Bool-cases, inl, inr,
}
use gpu_telemetry_pipeline.Message.{Message}
use gpu_telemetry_pipeline.Redis.{Redis, RedisLaws, PendingEntry, done, member, without}
use gpu_telemetry_pipeline.RedisQueue.{
  RedisQueue, Action, ◌>>=◌, ◌>>◌, pure, command, from_option, ok, message_not_found,
  unmarshal_failed, find_entry, ack, nack, requeue_message, pel_key, queue_key,
}
use gpu_telemetry_pipeline.RedisQueue.Actions.{command->>=-ok, from_option->>=-ok}
use gpu_telemetry_pipeline.RedisQueue.Waiting.{waiting, waiting-requeue_message}
use gpu_telemetry_pipeline.RedisQueue.Pending.{
  copies, same_self, copies-without_self, copies-without_ne, zset-requeue_message,
}

module _ ⦃R : Redis⦄ (L : RedisLaws R) where
  -- What `find_entry` finds is an entry of that message, and stands in the list.
  find_entry_sound :
      (message_id : String) (es : List (ℕ × R.Bytes)) (b : R.Bytes)
      → find_entry message_id (map member es) ≡ some b
      → (entry : PendingEntry) × (R.decode_entry b ≡ some entry)
        × (entry.message.id ≡ message_id)
        × (0 < copies L b es)
  unfolding find_entry
  find_entry_sound message_id [] b h = absurd (ground arith)
  find_entry_sound message_id ((score, c) ∷ es) b h = elim (Option-cases (R.decode_entry c)) [
    | inl e ↦
        let (entry, d, i, n) = find_entry_sound message_id es b (ground arith) in
        (entry, d, i, ground arith)
    | inr (found, e) ↦ elim (Bool-cases (str_eq found.message.id message_id)) [
      | inl hit ↦ (
        found,
        ground arith,
        (str_eq_iff found.message.id message_id).0 hit,
        ground (arith, same_self L b),
      )
      | inr miss ↦
          let (entry, d, i, n) = find_entry_sound message_id es b (ground arith) in
          (entry, d, i, ground arith)
    ]
  ]

  zset_removed :
      (key : String) (b : R.Bytes) (s : R.Store) {u : Unit {0}}
      → (R.zrem key b (R.zrange key s).1).0 ≡ done u
      → L.zset_at (R.zrem key b (R.zrange key s).1).1 key ≡ without R.same b (L.zset_at s key)
  zset_removed key b s h =
      ground
        (arith, L.zset-zrem key key b (R.zrange key s).1, L.zset-zrange key key s, str_eq_refl key)

  -- The entry that a successful method took out of a pending list, and all that stays.
  pub record Removes (key message_id : String) (q p : RedisQueue R.Store) : Type 0 where
    pub entry_json : R.Bytes
    pub entry : PendingEntry
    pub is_entry : R.decode_entry entry_json ≡ some entry
    pub has_id : entry.message.id ≡ message_id
    pub was_held : 0 < copies L entry_json (L.zset_at q.store key)
    pub is_gone : copies L entry_json (L.zset_at p.store key) ≡ 0
    pub others_stay :
        (b : R.Bytes)
        → b ≢ entry_json
        → copies L b (L.zset_at p.store key) ≡ copies L b (L.zset_at q.store key)

  -- The steps that `Ack` and `Nack` share, before what they do with the entry.
  abbrev removing :
      String → String → String → (R.Bytes → Action R.Store (Unit {0})) → Action R.Store (Unit {0})
  removing topic group message_id next = do
    entries ← command (R.zrange (pel_key topic group))
    entry_json ← from_option message_not_found (find_entry message_id entries)
    command (R.zrem (pel_key topic group) entry_json)
    next entry_json

  removing-Removes :
      (topic group message_id : String) (next : R.Bytes → Action R.Store (Unit {0}))
      (q : RedisQueue R.Store)
      → (removing topic group message_id next q).0 ≡ ok tt
      → (p : RedisQueue R.Store) × (r : Removes (pel_key topic group) message_id q p)
        × ((t : String) → waiting L p t ≡ waiting L q t)
        × (removing topic group message_id next q ≡ next r.entry_json p)
  removing-Removes topic group message_id next q h =
      let (entries, e1, s1) = command->>=-ok (R.zrange key) after_range q tt h in
      let q1 : RedisQueue R.Store = record q { store = (R.zrange key q.store).1 } in
      let h1 : (after_range entries q1).0 ≡ ok tt = ap (λ r. r.0) (sym s1) ∙ h in
      let (b, e2, s2) =
        from_option->>=-ok message_not_found (find_entry message_id entries) after_find q1 tt h1 in
      let h2 : (after_find b q1).0 ≡ ok tt = ap (λ r. r.0) (sym s2) ∙ h1 in
      let (u, e3, s3) = command->>=-ok (R.zrem key b) (λ _. next b) q1 tt h2 in
      let read : entries ≡ map member (L.zset_at q.store key) =
        L.reply-zrange key q.store entries e1 in
      let (entry, d, i, n) =
        find_entry_sound message_id (L.zset_at q.store key) b (rw (← read) e2) in
      let removed = zset_removed key b q.store e3 in
      (
        record q { store = (R.zrem key b (R.zrange key q.store).1).1 },
        record {
          entry_json = b;
          entry = entry;
          is_entry = d;
          has_id = i;
          was_held = n;
          is_gone = rw removed (copies-without_self L b (L.zset_at q.store key));
          others_stay =
              λ c other. rw removed (copies-without_ne L c b (L.zset_at q.store key) other);
        },
        λ t. ap (map R.decode_message) (
            L.list-zrem key (queue_key t) b (R.zrange key q.store).1
            ∙ L.list-zrange key (queue_key t) q.store),
        s1 ∙ s2 ∙ s3,
      )
    where
      key : String
      key = pel_key topic group

      after_find : R.Bytes → Action R.Store (Unit {0})
      after_find b = command (R.zrem key b) >> next b

      after_range : List R.Bytes → Action R.Store (Unit {0})
      after_range entries =
          from_option message_not_found (find_entry message_id entries) >>= after_find

  -- An acknowledgement that returns no error has taken an entry of that message out of the pending
  -- list of the topic and the group, has left every other entry there as often as it was, and has
  -- changed no topic.
  pub ack-Removes :
      (topic group message_id : String) (q : RedisQueue R.Store)
      → (ack topic group message_id q).0 ≡ ok tt
      → Removes (pel_key topic group) message_id q (ack topic group message_id q).1
        × ((t : String) → waiting L (ack topic group message_id q).1 t ≡ waiting L q t)
  unfolding ack
  ack-Removes topic group message_id q h =
      let (p, r, w, e) = removing-Removes topic group message_id (λ b. pure tt) q h in rw e (r, w)

  -- `Nack` after the entry has been removed.
  requeue_entry : R.Bytes → Action R.Store (Unit {0})
  requeue_entry b = do
    entry ← from_option unmarshal_failed (R.decode_entry b)
    requeue_message entry.message

  requeue_entry_lem :
      {b : R.Bytes} {entry : PendingEntry} (p : RedisQueue R.Store)
      → R.decode_entry b ≡ some entry
      → requeue_entry b p ≡ requeue_message entry.message p
  unfolding requeue_entry
  requeue_entry_lem p d = rw d refl

  Removes-requeue_message :
      (key message_id : String) (msg : Message) (q p : RedisQueue R.Store)
      → Removes key message_id q p
      → Removes key message_id q (requeue_message msg p).1
  Removes-requeue_message key message_id msg q p r = record {
    entry_json = r.entry_json;
    entry = r.entry;
    is_entry = r.is_entry;
    has_id = r.has_id;
    was_held = r.was_held;
    is_gone = rw (zset-requeue_message L msg key p) r.is_gone;
    others_stay = λ b other. rw (zset-requeue_message L msg key p) (r.others_stay b other);
  }

  -- A rejection that returns no error has taken an entry of that message out of the pending list,
  -- has left every other entry there, and has put the message of the entry in front of all that
  -- waits in its topic; no other topic has changed.
  pub nack-Removes :
      (topic group message_id : String) (q : RedisQueue R.Store)
      → (nack topic group message_id q).0 ≡ ok tt
      → (r : Removes (pel_key topic group) message_id q (nack topic group message_id q).1)
        × ((t : String)
            → waiting L (nack topic group message_id q).1 t ≡ (
                if str_eq r.entry.message.topic t
                then some r.entry.message ∷ waiting L q t
                else waiting L q t))
  unfolding nack requeue_entry Removes-requeue_message
  nack-Removes topic group message_id q h =
      let (p, r, w, e) = removing-Removes topic group message_id requeue_entry q h in
      let g : requeue_entry r.entry_json p ≡ requeue_message r.entry.message p =
        requeue_entry_lem p r.is_entry in
      let returned : (requeue_message r.entry.message p).0 ≡ ok tt =
        ap (λ o. o.0) (sym (e ∙ g)) ∙ h in
      rw (e, g)
        (
          Removes-requeue_message (pel_key topic group) message_id r.entry.message q p r,
          λ t. ground (arith, waiting-requeue_message L r.entry.message p t, returned, w t),
        )
