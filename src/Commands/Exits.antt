-- ===== src/Commands/Exits.antt =====
-- What a command leaves open when its process ends.
use gpu_telemetry_pipeline.Base.{ℕ, true, false, Option, none, some, List, [], ◌++◌, ◌≡◌, refl}
use gpu_telemetry_pipeline.Config.{Readers}
use gpu_telemetry_pipeline.Commands.{Act, cancels, shuts_down, Outcome, finish, start, Program}
use gpu_telemetry_pipeline.Commands.Mains.{
  World, FlagEnd, parsed, helped, misread, parse_flags, RunEnd, ServerEnd, await_run, await_server,
  Command, collector, streamer, api_gateway, queueservice, signalled, returned, failed, interrupted,
  main, collector_main, streamer_main, api_gateway_main, queueservice_main,
}
use gpu_telemetry_pipeline.Commands.Tidy.{
  opened, closed, backwards, Ends, going, exited, stuck, Tidies, all_closed, tidy_rules, Tidies-act,
  Tidies-require, Tidies-defer_cancels, Tidies->>, Tidies-exit, Tidies-hang, Tidies-skip,
}

-- What is left when a process has ended.
pub data Leaves : Option (ℕ × List Act) → Type 0 where
  never : Leaves none
  clean : (log : List Act) → closed log ≡ backwards (opened log) → Leaves (some (0, log))
  dropped : (log : List Act) → closed log ≡ [] → Leaves (some (1, log))
  misused : Leaves (some (2, []))

finished : (r : Outcome (Unit {0})) → Ends r → Leaves (finish r)
finished r (going u p t) = clean (p.log ++ p.deferred) (all_closed p t)
finished r (exited log h) = dropped log h
finished r stuck = never

Leaves-start : (m : Program (Unit {0})) → Tidies m → Leaves (start m)
unfolding start
Leaves-start m t =
    finished _ (t.at _ (record { deferred_all = refl; none_closed = refl; opens_none = refl }))

Leaves-parse_flags :
    (e : FlagEnd) (m : Program (Unit {0})) → Tidies m → Leaves (start (parse_flags e m))
unfolding start
Leaves-parse_flags parsed m t = Leaves-start m t
Leaves-parse_flags helped m t = clean [] refl
Leaves-parse_flags misread m t = misused

module _ ⦃X : Readers⦄ (w : World) where
  Tidies-await_run : (e : RunEnd) → Tidies (await_run w e)
  Tidies-await_run (signalled true) = Tidies-act cancels (refl, refl)
  Tidies-await_run (signalled false) = Tidies->> _ _ (Tidies-act cancels (refl, refl)) Tidies-hang
  Tidies-await_run (returned true) = Tidies-exit
  Tidies-await_run (returned false) = Tidies-skip

  Tidies-await_server : (e : ServerEnd) → Tidies (await_server w e)
  Tidies-await_server failed = Tidies-exit
  Tidies-await_server (interrupted stopped) =
      Tidies->> _ _ Tidies-defer_cancels (Tidies-require stopped shuts_down (refl, refl))

  -- However its calls come out, a command that ends with the status 0 has closed every repository, lock
  -- and queue that it opened, the last first; one that ends with the status 1 has closed none, whatever
  -- it had opened; and one that ends otherwise could not read its command line, has the status 2 and has
  -- done nothing. The client of the queue service, which the collector and the streamer create, is closed
  -- by none.
  pub main-Leaves : (c : Command) → Leaves (start (main w c))
  unfolding main collector_main streamer_main api_gateway_main queueservice_main
  main-Leaves collector =
      Leaves-parse_flags w.flag_end _ (search (tidy_rules, Tidies-await_run) depth 20)
  main-Leaves streamer =
      Leaves-parse_flags w.flag_end _ (search (tidy_rules, Tidies-await_run) depth 20)
  main-Leaves api_gateway = Leaves-start _ (search (tidy_rules, Tidies-await_server) depth 20)
  main-Leaves queueservice =
      Leaves-parse_flags w.flag_end _ (search (tidy_rules, Tidies-await_server) depth 20)
