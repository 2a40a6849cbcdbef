-- ===== src/HttpClient/Batch.antt =====
-- What one pass of the poll loop sends: the log of a network that records its requests.
use gpu_telemetry_pipeline.Base.{
  String, Bool, true, false, Option, none, some, List, [], ◌∷◌, ◌++◌, map, ◌≡◌, refl, sym, ap, ap₂,
  ◌∙◌, append_assoc, append_nil, Bool-cases, inl, inr,
}
use gpu_telemetry_pipeline.Message.{Message}
use gpu_telemetry_pipeline.HttpServer.{AckRequest}
use gpu_telemetry_pipeline.HttpClient.{
  HttpRequest, Transport, Codec, HttpQueueClient, MessageHandler, post_request, settle_url,
  ack_payload, fetch_request, post, ack, nack, process_one, process_batch, read_batch, after_fetch,
  poll,
}

-- What a handler returns for each message of a batch, one after the other.
unfoldable pub outcomes : {H : Type 0} → MessageHandler H → List Message → H → List (Message × Bool)
outcomes handler [] h = []
outcomes handler (msg ∷ msgs) h = (msg, (handler msg h).0) ∷ outcomes handler msgs (handler msg h).1

-- The handler's state after a batch.
unfoldable pub handled : {H : Type 0} → MessageHandler H → List Message → H → H
handled handler [] h = h
handled handler (msg ∷ msgs) h = handled handler msgs (handler msg h).1

abbrev pub or_empty : Option (List Message) → List Message
or_empty none = []
or_empty (some msgs) = msgs

module _ ⦃T : Transport⦄ ⦃X : Codec⦄ where
  open T use {Net}

  module _ (log : Net → List HttpRequest)
      (records : (r : HttpRequest) (n : Net) → log (T.send r n).1 ≡ log n ++ r ∷ [])
      (ack_json : AckRequest → String)
      (encodes : (a : AckRequest) → X.encode_ack a ≡ some (ack_json a)) where
    -- The request that settles a message: an acknowledgement exactly if the handler returned nil.
    abbrev pub settle_request : HttpQueueClient → String → Message × Bool → HttpRequest
    settle_request c topic o =
        post_request (settle_url c o.1) (ack_json (ack_payload c topic o.0.id))

    log-process_one :
        {H : Type 0} (c : HttpQueueClient) (topic : String) (handler : MessageHandler H)
        (msg : Message) (h : H) (n : Net)
        → (log (process_one c topic handler msg (h, n)).1
            ≡ log n ++ settle_request c topic (msg, (handler msg h).0) ∷ [])
          × ((process_one c topic handler msg (h, n)).0 ≡ (handler msg h).1)
    unfolding process_one ack nack post
    log-process_one c topic handler msg h n =
        let json = encodes (ack_payload c topic msg.id) in
        let body = ack_json (ack_payload c topic msg.id) in
        elim (Bool-cases (handler msg h).0) [
          | inl e ↦ rw (e, json) (records (post_request (settle_url c true) body) n, refl)
          | inr e ↦ rw (e, json) (records (post_request (settle_url c false) body) n, refl)
        ]

    log-process_batch :
        {H : Type 0} (c : HttpQueueClient) (topic : String) (handler : MessageHandler H)
        (msgs : List Message) (h : H) (n : Net)
        → (log (process_batch c topic handler msgs (h, n)).1
            ≡ log n ++ map (settle_request c topic) (outcomes handler msgs h))
          × ((process_batch c topic handler msgs (h, n)).0 ≡ handled handler msgs h)
    unfolding process_batch outcomes handled
    log-process_batch c topic handler [] h n = (sym (append_nil (log n)), refl)
    log-process_batch c topic handler (msg ∷ msgs) h n =
        let one = log-process_one c topic handler msg h n in
        let s = process_one c topic handler msg (h, n) in
        let more = log-process_batch c topic handler msgs s.0 s.1 in
        let todo = map (settle_request c topic) in
        (
          more.0
              ∙ ap₂ (λ l k. l ++ todo (outcomes handler msgs k)) one.0 one.1
              ∙ append_assoc (log n) (settle_request c topic (msg, (handler msg h).0) ∷ []) _,
          more.1 ∙ ap (handled handler msgs) one.1,
        )

    log-after_fetch :
        {H : Type 0} (c : HttpQueueClient) (topic : String) (handler : MessageHandler H)
        (fetched : Option (List Message)) (h : H) (n : Net)
        → let s = (after_fetch c topic handler fetched (h, n)).1 in
          (log s.1 ≡ log n ++ map (settle_request c topic) (outcomes handler (or_empty fetched) h))
          × (s.0 ≡ handled handler (or_empty fetched) h)
    unfolding after_fetch outcomes handled
    log-after_fetch c topic handler none h n = (sym (append_nil (log n)), refl)
    log-after_fetch c topic handler (some msgs) h n = log-process_batch c topic handler msgs h n

    -- One pass of the poll loop sends the request for a batch, and then, for each message of the
    -- batch that came, in the batch's order and whatever the network answers, one request that settles
    -- it: an acknowledgement if the handler returned nil, a rejection if it returned an error. The
    -- handler has seen each of the messages once, in that order. The acknowledgements can be written
    -- as JSON.
    pub log-poll :
        {H : Type 0} (c : HttpQueueClient) (topic : String) (handler : MessageHandler H) (h : H)
        (n : Net)
        → let msgs = or_empty (read_batch (T.send (fetch_request c topic) n).0) in
          let s = (poll c topic handler (h, n)).1 in
          (log s.1
            ≡ log n
              ++ fetch_request c topic ∷ map (settle_request c topic) (outcomes handler msgs h))
          × (s.0 ≡ handled handler msgs h)
    unfolding poll
    log-poll c topic handler h n =
        let out = T.send (fetch_request c topic) n in
        let rest = log-after_fetch c topic handler (read_batch out.0) h out.1 in
        let settled =
          map (settle_request c topic) (outcomes handler (or_empty (read_batch out.0)) h) in
        (
          rest.0
              ∙ ap (λ l. l ++ settled) (records (fetch_request c topic) n)
              ∙ append_assoc (log n) (fetch_request c topic ∷ []) settled,
          rest.1,
        )
