-- ===== src/HttpServer/Logging.antt =====
-- `loggingMiddleware` of internal/queueservice/http_server.go, with what it does to the stream of
-- `handleSubscribe`. What net/http gives a handler to write to is the record `Writer`.
use gpu_telemetry_pipeline.Base.{ℕ, String, Option, none, some, List, [], ◌∷◌, ◌≡◌, refl, ap}
use gpu_telemetry_pipeline.HttpClient.Stream.{StreamEvent, connected}

-- `http.ResponseWriter`; `flusher` is there if the type is an `http.Flusher` too.
pub record Writer (W : Type 0) : Type 0 where
  pub write_header : ℕ → W → W
  pub write : StreamEvent → W → W
  pub flusher : Option (W → W)

-- `responseWriter`: the writer that it wraps, and the status code.
pub record ResponseWriter (W : Type 0) : Type 0 where
  pub response_writer : W
  pub status_code : ℕ

-- The methods of `responseWriter`: its own `WriteHeader`, and what http.ResponseWriter has. The
-- embedded interface has no `Flush`.
unfoldable pub wrapped : {W : Type 0} → Writer W → Writer (ResponseWriter W)
wrapped X = record {
  write_header = λ code w. record {
    response_writer = X.write_header code w.response_writer;
    status_code = code;
  };
  write = λ e w. record w { response_writer = X.write e w.response_writer };
  flusher = none;
}

-- `if flusher, ok := w.(http.Flusher); ok { flusher.Flush() }`.
unfoldable pub flush_if : {W : Type 0} → Option (W → W) → W → W
flush_if none w = w
flush_if (some flush) w = flush w

unfoldable pub write_events : {W : Type 0} → Writer W → List StreamEvent → W → W
write_events X [] w = w
write_events X (e ∷ es) w = write_events X es (flush_if X.flusher (X.write e w))

-- What `handleSubscribe` writes for a consumer, when its turns write those events.
unfoldable pub write_stream : {W : Type 0} → String → List StreamEvent → Writer W → W → W
write_stream consumer_id es X w = write_events X (connected consumer_id ∷ es) (flush_if X.flusher w)

-- A handler behind the middleware: what has become of the writer, and the status that is logged.
unfoldable pub logging_middleware :
    {W : Type 0} → Writer W → ((V : Type 0) → Writer V → V → V) → W → W × ℕ
logging_middleware {W} X next w =
    let out =
      next (ResponseWriter W) (wrapped X) (record { response_writer = w; status_code = 200 }) in
    (out.response_writer, out.status_code)

module _ {W : Type 0} (X : Writer W) where
  -- Events written to the connection and none of them flushed.
  abbrev pub write_all : List StreamEvent → W → W
  write_all [] w = w
  write_all (e ∷ es) w = write_all es (X.write e w)

  write_events-wrapped :
      (es : List StreamEvent) (w : ResponseWriter W)
      → write_events (wrapped X) es w
        ≡ record w { response_writer = write_all es w.response_writer }
  unfolding write_events wrapped flush_if
  write_events-wrapped [] w = refl
  write_events-wrapped (e ∷ es) w =
      write_events-wrapped es (record w { response_writer = X.write e w.response_writer })

  -- Behind the logging middleware no event of a stream is flushed, whether the connection can flush
  -- or not: it sees the events written one after the other, and nothing else. The status that is
  -- logged is 200.
  pub logging_middleware-write_stream :
      (consumer_id : String) (es : List StreamEvent) (w : W)
      → logging_middleware X (λ V. write_stream consumer_id es) w
        ≡ (write_all (connected consumer_id ∷ es) w, 200)
  unfolding logging_middleware write_stream flush_if wrapped
  logging_middleware-write_stream consumer_id es w =
      ap (λ r. (r.response_writer, r.status_code))
        (write_events-wrapped (connected consumer_id ∷ es)
          (record { response_writer = w; status_code = 200 }))
