-- ===== src/Streamer/Released.antt =====
-- A streamer that has returned holds no lock.
use gpu_telemetry_pipeline.Base.{
  ℕ, zero, suc, ◌+◌, String, Bool, true, false, Option, none, some, List, [], ◌∷◌, ◌≡◌, refl, sym,
  ap, subst, ◌∙◌, ◌⊎◌, Option-cases, Bool-cases, inl, inr, arith, length,
}
use gpu_telemetry_pipeline.Domain.{TelemetryJson}
use gpu_telemetry_pipeline.MessageQueue.{MessageQueue}
use gpu_telemetry_pipeline.Parser.{CsvRecord}
use gpu_telemetry_pipeline.Parser.Reader.{Line, new_stream_reader, StreamReader}
use gpu_telemetry_pipeline.BatchLock.{
  Held, get_lock, owns, release_lock, Try, Acquired, acquired, cancelled, still_trying,
  acquire_lock,
}
use gpu_telemetry_pipeline.Streamer.{
  Streamer, StreamError, Surroundings, stream_file, stream_reader, publish_all, process_record,
  read_all, count_errors, count_row,
}
use gpu_telemetry_pipeline.Streamer.Loop.{
  Round, Node, Outcome, returned, goes_on, waits, release_deferred, after_file, process_file,
  with_lock, turn, finish, start,
}

get_lock-not_owned :
    (now : ℕ) (v : String) (key : Option Held)
    → owns v key ≡ false
    → owns v (get_lock now key) ≡ false
unfolding get_lock
get_lock-not_owned now v none h = refl
get_lock-not_owned now v (some k) h = ground (arith, h)

release_lock-not_owned :
    (now : ℕ) (v : String) (key : Option Held)
    → owns v (get_lock now (release_lock now v key)) ≡ false
unfolding release_lock get_lock
release_lock-not_owned now v none = refl
release_lock-not_owned now v (some k) = ground arith

release_deferred-not_owned :
    (n now : ℕ) (v : String) (key : Option Held)
    → owns v (get_lock now key) ≡ false
    → owns v (get_lock now (release_deferred n now v key)) ≡ false
unfolding release_deferred
release_deferred-not_owned zero now v key h = h
release_deferred-not_owned (suc n) now v key h =
    release_deferred-not_owned n now v (release_lock now v key) (release_lock-not_owned now v key)

-- The lock is held only with a release deferred.
abbrev pub Covered : String → ℕ → Option Held → Type 0
Covered v zero key = owns v key ≡ false
Covered v (suc n) key = Unit

released :
    (n now : ℕ) (v : String) (key : Option Held)
    → Covered v n key
    → owns v (get_lock now (release_deferred n now v key)) ≡ false
unfolding release_deferred
released zero now v key h = get_lock-not_owned now v key h
released (suc n) now v key h =
    release_deferred-not_owned n now v (release_lock now v key) (release_lock-not_owned now v key)

acquire_lock-cancelled :
    (v : String) (tries : List Try) (key : Option Held)
    → (acquire_lock v tries key).0 ≡ cancelled
    → (acquire_lock v tries key).1 ≡ key
unfolding acquire_lock
acquire_lock-cancelled v [] key h = refl
acquire_lock-cancelled v (t ∷ tries) key h = ground (arith, h, acquire_lock-cancelled v tries key)

acquire_lock-still_trying :
    (v : String) (tries : List Try) (key : Option Held)
    → (acquire_lock v tries key).0 ≡ still_trying
    → (acquire_lock v tries key).1 ≡ key
unfolding acquire_lock
acquire_lock-still_trying v [] key h = refl
acquire_lock-still_trying v (t ∷ tries) key h =
    ground (arith, h, acquire_lock-still_trying v tries key)

Acquired-cases : (a : Acquired) → (a ≡ acquired) ⊎ (a ≡ cancelled) ⊎ (a ≡ still_trying)
Acquired-cases acquired = inl refl
Acquired-cases cancelled = inr (inl refl)
Acquired-cases still_trying = inr (inr refl)

instance_id-after_file :
    (loop_mode : Bool) (e : Option StreamError) (s : Streamer)
    → (after_file loop_mode e s).1.instance_id ≡ s.instance_id
unfolding after_file
instance_id-after_file loop_mode none s = refl
instance_id-after_file loop_mode (some e) s = ground arith

Outcome-cases :
    (o : Outcome) → ((e : Option StreamError) × (o ≡ returned e)) ⊎ (o ≡ goes_on) ⊎ (o ≡ waits)
Outcome-cases (returned e) = inl (e, refl)
Outcome-cases goes_on = inr (inl refl)
Outcome-cases waits = inr (inr refl)

module _ {Q : Type 0} ⦃M : MessageQueue Q⦄ ⦃J : TelemetryJson⦄ where
  instance_id-publish_all :
      (w : Surroundings) (i : ℕ) (rs : List CsvRecord) (s : Streamer) (q : Q)
      → (publish_all w i rs s q).1.instance_id ≡ s.instance_id
  unfolding publish_all
  instance_id-publish_all w i [] s q = refl
  instance_id-publish_all w i (r ∷ rs) s q =
      let out = process_record s.instance_id (w.uuid i) r w.now w.batch_id q in
      elim (Bool-cases (w.is_done i)) [
        | inl e ↦ rw e refl
        | inr e ↦ elim (Option-cases out.0) [
          | inl f ↦ rw (e, f) (instance_id-publish_all w (i + 1) rs (count_row s) out.1)
          | inr (x, f) ↦ rw (e, f) (instance_id-publish_all w (i + 1) rs s out.1)
        ]
      ]

  instance_id-stream_reader :
      (w : Surroundings) (sr : StreamReader) (s : Streamer) (q : Q)
      → (stream_reader w sr s q).1.instance_id ≡ s.instance_id
  unfolding stream_reader
  instance_id-stream_reader w sr s q = elim (Option-cases (read_all (suc (length sr.reader)) sr)) [
    | inl e ↦ rw (stream_reader, e) refl
    | inr (out, e) ↦
        rw (stream_reader, e) (instance_id-publish_all w 0 out.0 (count_errors out.1 s) q)
  ]

  instance_id-stream_file :
      (w : Surroundings) (lines : Option (List Line)) (s : Streamer) (q : Q)
      → (stream_file w lines s q).1.instance_id ≡ s.instance_id
  unfolding stream_file
  instance_id-stream_file w none s q = refl
  instance_id-stream_file w (some lines) s q = elim (Option-cases (new_stream_reader lines)) [
    | inl e ↦ rw (stream_file, e) refl
    | inr (sr, e) ↦ rw (stream_file, e) (instance_id-stream_reader w sr s q)
  ]

  -- A turn keeps the instance's name, and covers the lock if it was covered.
  abbrev Keeps : String → Outcome × Node Q → Type 0
  Keeps v out = (out.1.streamer.instance_id ≡ v) × Covered v out.1.deferred out.1.key

  process_file-Keeps :
      (loop_mode : Bool) (r : Round) (v : String) (n : Node Q) (k : ℕ)
      → n.streamer.instance_id ≡ v
      → n.deferred ≡ suc k
      → Keeps v (process_file true loop_mode r n)
  unfolding process_file
  process_file-Keeps loop_mode r v n k i d =
      let out = stream_file r.surroundings r.lines n.streamer n.queue in
      (
        instance_id-after_file loop_mode out.0 out.1
            ∙ instance_id-stream_file r.surroundings r.lines n.streamer n.queue
            ∙ i,
        rw d tt,
      )

  turn-Keeps :
      (loop_mode : Bool) (r : Round) (v : String) (n : Node Q)
      → n.streamer.instance_id ≡ v
      → Covered v n.deferred n.key
      → Keeps v (turn true loop_mode r n)
  unfolding turn with_lock process_file
  turn-Keeps loop_mode r v n i c =
      let got = acquire_lock n.streamer.instance_id r.tries n.key in
      elim (Bool-cases r.is_done) [
        | inl e ↦ rw e (i, c)
        | inr e ↦ elim (Acquired-cases got.0) [
          | inl a ↦
              rw (e, a)
                (process_file-Keeps loop_mode r v
                  (record n { key = got.1; deferred = suc n.deferred }) n.deferred i refl)
          | inr (inl a) ↦
              let same = acquire_lock-cancelled n.streamer.instance_id r.tries n.key a in
              rw (e, a) (i, subst (Covered v n.deferred) (sym same) c)
          | inr (inr a) ↦
              let same = acquire_lock-still_trying n.streamer.instance_id r.tries n.key a in
              rw (e, a) (i, subst (Covered v n.deferred) (sym same) c)
        ]
      ]

  start_returned :
      (now : ℕ) (loop_mode : Bool) (v : String) (rounds : List Round) (n n' : Node Q)
      (e : Option StreamError)
      → n.streamer.instance_id ≡ v
      → Covered v n.deferred n.key
      → start now true loop_mode rounds n ≡ (returned e, n')
      → owns v (get_lock now n'.key) ≡ false
  unfolding start finish
  start_returned now loop_mode v [] n n' e i c h = absurd (ground (arith, h))
  start_returned now loop_mode v (r ∷ rounds) n n' e i c h =
      let out = turn true loop_mode r n in
      let (named, covered) = turn-Keeps loop_mode r v n i c in
      elim (Outcome-cases out.0) [
        | inl (x, o) ↦
            let final : release_deferred out.1.deferred now out.1.streamer.instance_id out.1.key
                ≡ n'.key =
              ground (arith, o, h) in
            subst (λ key. owns v (get_lock now key) ≡ false)
              (ap (λ w. release_deferred out.1.deferred now w out.1.key) (sym named) ∙ final)
              (released out.1.deferred now v out.1.key covered)
        | inr (inl o) ↦
            start_returned now loop_mode v rounds out.1 n' e named covered (ground (arith, o, h))
        | inr (inr o) ↦ absurd (ground (arith, o, h))
      ]

  -- When `Start` returns, in loop mode or not and for whatever reason, the instance does not hold the
  -- lock: Redis shows no key of its value at the time of the deferred releases, which Redis answers. The
  -- instance did not hold the lock when it started; other instances may have changed the key while it
  -- published, and the releases in the rounds may have failed.
  pub start-not_owned :
      (now : ℕ) (loop_mode : Bool) (rounds : List Round) (n n' : Node Q) (e : Option StreamError)
      → n.deferred ≡ 0
      → owns n.streamer.instance_id n.key ≡ false
      → start now true loop_mode rounds n ≡ (returned e, n')
      → owns n.streamer.instance_id (get_lock now n'.key) ≡ false
  start-not_owned now loop_mode rounds n n' e d c h =
      start_returned now loop_mode n.streamer.instance_id rounds n n' e refl
        (subst (λ k. Covered n.streamer.instance_id k n.key) (sym d) c) h
