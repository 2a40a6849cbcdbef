-- ===== src/HttpClient/Settled.antt =====
-- Acknowledgements and rejections over HTTP, up to the pending lists of the server's queue.
use gpu_telemetry_pipeline.Base.{
  ℕ, String, Bool, true, false, ◌||◌, Option, none, some, [], ◌∷◌, ◌≡◌, ◌≢◌, refl, sym, subst,
  str_eq, concat, if◌then◌else◌, Option-cases, inl, inr, arith,
}
use gpu_telemetry_pipeline.Redis.{Redis, RedisLaws}
use gpu_telemetry_pipeline.RedisQueue.{RedisQueue, Result, ok, err, panicked, pel_key}
use gpu_telemetry_pipeline.RedisQueue
use gpu_telemetry_pipeline.RedisQueue.Waiting.{waiting}
use gpu_telemetry_pipeline.RedisQueue.Ack.{Removes, ack-Removes, nack-Removes}
use gpu_telemetry_pipeline.HttpServer.{
  AckRequest, Decoders, error, success, respond, handle_ack, handle_nack, with_entry,
}
use gpu_telemetry_pipeline.HttpServer.Mux.{plain, Service, on_queue, serve}
use gpu_telemetry_pipeline.HttpClient.{
  HttpResponse, Transport, Codec, HttpQueueClient, post_request, check_reply, post, ack, nack,
  settle_url, ack_payload,
}
use gpu_telemetry_pipeline.HttpClient.Served.{Exchange, Connection, posted, check_200}

unanswered_is_error : check_reply none ≢ none
unfolding check_reply
unanswered_is_error h = ground (arith, h)

module _ ⦃R : Redis⦄ ⦃T : Transport⦄ ⦃X : Codec⦄ ⦃D : Decoders⦄ where
  open R use {Store}
  open T use {Net}

  serve-ack :
      (clock : ℕ → ℕ) (body : String) (s : Service)
      → serve clock (posted "/api/v1/queue/ack" body) s
        ≡ on_queue (with_entry RedisQueue.ack (some body) s.queue) s
  unfolding serve handle_ack
  serve-ack clock body s = refl

  serve-nack :
      (clock : ℕ → ℕ) (body : String) (s : Service)
      → serve clock (posted "/api/v1/queue/nack" body) s
        ≡ on_queue (with_entry RedisQueue.nack (some body) s.queue) s
  unfolding serve handle_nack
  serve-nack clock body s = refl

  module _ (L : RedisLaws R) where
    abbrev Act : Type 0
    Act = String → String → String → RedisQueue Store → Result (Unit {0}) × RedisQueue Store

    respond-done :
        (s : Service) (out : Result (Unit {0}) × RedisQueue Store) (id : String)
        (reply : Option HttpResponse) (after : Service)
        → Exchange s (on_queue (respond out (λ _. success id)) s) reply after
        → check_reply reply ≡ none
        → (out.0 ≡ ok tt) × (after.queue ≡ out.1)
    respond-done s (ok u, p) id _ _ (Exchange.answered k body h) d = (refl, refl)
    respond-done s (err e, p) id _ _ (Exchange.answered k body h) d =
        absurd (ground (arith, h, check_200 k body d))
    respond-done s (panicked, p) id _ _ (Exchange.answered k body h) d = absurd (cc)
    respond-done s out id _ _ Exchange.unanswered d = absurd (unanswered_is_error d)
    respond-done s out id _ _ Exchange.unreached d = absurd (unanswered_is_error d)

    refused-done :
        (k : ℕ) (s : Service) (reply : Option HttpResponse) (after : Service)
        → Exchange s (plain (error k), s) reply after
        → check_reply reply ≡ none
        → k ≡ 200
    refused-done k s _ _ (Exchange.answered j body h) d = ground (arith, h, check_200 j body d)
    refused-done k s _ _ Exchange.unanswered d = absurd (unanswered_is_error d)
    refused-done k s _ _ Exchange.unreached d = absurd (unanswered_is_error d)

    checked-done :
        (bad : Bool) (s : Service) (out : Result (Unit {0}) × RedisQueue Store) (id : String)
        (reply : Option HttpResponse) (after : Service)
        → Exchange s
            (on_queue (if bad then (error 400, s.queue) else respond out (λ _. success id)) s)
            reply
            after
        → check_reply reply ≡ none
        → (out.0 ≡ ok tt) × (after.queue ≡ out.1)
    checked-done true s out id reply after x d =
        absurd (ground (arith, refused-done 400 s reply after x d))
    checked-done false s out id reply after x d = respond-done s out id reply after x d

    with_entry-done :
        (act : Act) (body : String) (a : AckRequest) (s : Service) (reply : Option HttpResponse)
        (after : Service)
        → D.decode_ack body ≡ some a
        → Exchange s (on_queue (with_entry act (some body) s.queue) s) reply after
        → check_reply reply ≡ none
        → ((act a.topic a.consumer_group a.message_id s.queue).0 ≡ ok tt)
          × (after.queue ≡ (act a.topic a.consumer_group a.message_id s.queue).1)
    with_entry-done act body a s reply after back x d =
        let bad = str_eq a.topic "" || str_eq a.consumer_group "" || str_eq a.message_id "" in
        let out = act a.topic a.consumer_group a.message_id s.queue in
        let checked : with_entry act (some body) s.queue
            ≡ (if bad then (error 400, s.queue) else respond out (λ _. success a.message_id)) =
          rw (with_entry, back) refl in
        checked-done bad s out a.message_id reply after
          (subst (λ served. Exchange s (on_queue served s) reply after) checked x) d

    post-done :
        (base_url path : String) (K : Connection base_url) (act : Act) (a : AckRequest)
        → ((body : String) (s : Service)
            → serve K.clock (posted path body) s ≡ on_queue (with_entry act (some body) s.queue) s)
        → ((body : String) → X.encode_ack a ≡ some body → D.decode_ack body ≡ some a)
        → (n : Net)
        → let out = post (concat (base_url ∷ path ∷ [])) (X.encode_ack a) n in
          let served = act a.topic a.consumer_group a.message_id (K.service_at n).queue in
          out.0 ≡ none → (served.0 ≡ ok tt) × ((K.service_at out.1).queue ≡ served.1)
    unfolding post
    post-done base_url path K act a routed back n = elim (Option-cases (X.encode_ack a)) [
      | inl e ↦ rw e (λ d. absurd (ground (arith, d)))
      | inr (body, e) ↦
          let s = K.service_at n in
          let out = T.send (post_request (concat (base_url ∷ path ∷ [])) body) n in
          rw e (λ d.
            with_entry-done act body a s out.0 (K.service_at out.1) (back body e)
              (subst (λ served. Exchange s served out.0 (K.service_at out.1)) (routed body s)
                (K.exchange path body n))
              d)
    ]

    -- An acknowledgement over HTTP that returns no error, to a server that reads its JSON back as what was written, has
    -- taken an entry of the message out of the pending list of the topic and the client's group, has
    -- left every other entry there as often as it was, and has changed no topic.
    pub ack-served :
        (c : HttpQueueClient) (K : Connection c.base_url)
        → (topic message_id : String)
        → ((body : String)
            → X.encode_ack (ack_payload c topic message_id) ≡ some body
            → D.decode_ack body ≡ some (ack_payload c topic message_id))
        → (n : Net) → (ack c topic message_id n).0 ≡ none
        → let q = (K.service_at n).queue in
          let p = (K.service_at (ack c topic message_id n).1).queue in
          Removes L (pel_key topic c.consumer_group) message_id q p
          × ((t : String) → waiting L p t ≡ waiting L q t)
    unfolding ack settle_url ack_payload
    ack-served c K topic message_id back n d =
        let a = ack_payload c topic message_id in
        let q = (K.service_at n).queue in
        let (fine, is) =
          post-done c.base_url "/api/v1/queue/ack" K RedisQueue.ack a (serve-ack K.clock) back n
            d in
        subst
          (λ p.
            Removes L (pel_key topic c.consumer_group) message_id q p
            × ((t : String) → waiting L p t ≡ waiting L q t))
          (sym is) (ack-Removes L topic c.consumer_group message_id q fine)

    -- A rejection over HTTP that returns no error, to a server that reads its JSON back as what was written, has taken an
    -- entry of the message out of the pending list of the topic and the client's group, has left every
    -- other entry there, and has put the message of the entry in front of all that waits in its topic;
    -- no other topic has changed.
    pub nack-served :
        (c : HttpQueueClient) (K : Connection c.base_url)
        → (topic message_id : String)
        → ((body : String)
            → X.encode_ack (ack_payload c topic message_id) ≡ some body
            → D.decode_ack body ≡ some (ack_payload c topic message_id))
        → (n : Net) → (nack c topic message_id n).0 ≡ none
        → let q = (K.service_at n).queue in
          let p = (K.service_at (nack c topic message_id n).1).queue in
          (r : Removes L (pel_key topic c.consumer_group) message_id q p) × ((t : String)
            → waiting L p t ≡ (
                if str_eq r.entry.message.topic t
                then some r.entry.message ∷ waiting L q t
                else waiting L q t))
    unfolding nack settle_url ack_payload
    nack-served c K topic message_id back n d =
        let a = ack_payload c topic message_id in
        let q = (K.service_at n).queue in
        let (fine, is) =
          post-done c.base_url "/api/v1/queue/nack" K RedisQueue.nack a (serve-nack K.clock) back n
            d in
        subst
          (λ p.
            (r : Removes L (pel_key topic c.consumer_group) message_id q p) × ((t : String)
              → waiting L p t ≡ (
                  if str_eq r.entry.message.topic t
                  then some r.entry.message ∷ waiting L q t
                  else waiting L q t)))
          (sym is) (nack-Removes L topic c.consumer_group message_id q fine)
