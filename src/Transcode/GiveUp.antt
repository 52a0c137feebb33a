-- ===== src/Transcode/GiveUp.antt =====
-- The errors that Execute and MoveToDLQ record when a job is given up.
use video_encoder_service.Prelude.{ℕ, suc, String, Option, none, some}
use video_encoder_service.Types.Error.{
  Error, Result, ok, err, panic, next, drop_error, ◌>>=◌, ◌>>◌, fail, ignore,
}
use video_encoder_service.Jobs.Service.{set_error}
use video_encoder_service.Transcode.World.{DlqEntry, World, Env, on_jobs, time, ask}
use video_encoder_service.Transcode.Limits.{Settings}
use video_encoder_service.Transcode.Execute.{
  handle_error, stage_error, give_up, move_to_dlq, dlq_outcome, put_entry, new_entry,
}
use video_encoder_service.Transcode.Keeps.{Keeps, IsCalm, keeps_rules}
use video_encoder_service.Transcode.Framed.{frame_rules}
use video_encoder_service.Transcode.Safe.{pointer_found, Safe, Framed-Holds, safe_rules}
use video_encoder_service.Transcode.Yields.{Given}
use video_encoder_service.Transcode.Settled.{Ran, Ran-quiet, Failed, Yields-Failed}
use video_encoder_service.Transcode.Attempt.{Ended}

abbrev Returned : (World → Type 0) → Result (Unit {0}) × World → Type 0
Returned R (ok t, w) = R w
Returned R (err e, w) = ⊥
Returned R (panic, w) = ⊥

dropped-Returned :
    (R : World → Type 0) (r : Result (Unit {0}) × World)
    → Given (λ _. R) (drop_error r)
    → IsCalm (drop_error r).0
    → Returned R (drop_error r)
dropped-Returned R (ok t, w) h c = h
dropped-Returned R (err e, w) h c = h
dropped-Returned R (panic, w) h c = absurd c

kept-Returned :
    (R : World → Type 0) (r : Result (Unit {0}) × World)
    → R (drop_error r).1 × IsCalm (drop_error r).0
    → Returned R (drop_error r)
kept-Returned R (ok t, w) h = h.0
kept-Returned R (err e, w) h = h.0
kept-Returned R (panic, w) h = absurd h.1

then-Ended :
    (id : String) (n : ℕ) (last : Error) (r : Result (Unit {0}) × World)
    → Returned (Failed id n) r
    → Ended id n (next (λ _. fail last) r)
unfolding fail
then-Ended id n last (ok t, w) h = h
then-Ended id n last (err e, w) h = absurd h
then-Ended id n last (panic, w) h = absurd h

module _ (env : Env) (id : String) (n : ℕ) where
  handle_error-Returned :
      (stage code text : String) (w : World)
      → Safe id (Ran n) w
      → Returned (Failed id n) (handle_error env id stage code text w)
  unfolding handle_error time ask ◌>>=◌ ignore
  handle_error-Returned stage code text w s =
      let w' : World = record w { tick = suc w.tick } in
      let e = stage_error id stage code text in
      let s' : Safe id (Ran n) w' = record { valid = s.valid; held = s.held; logged = s.logged } in
      let calm : Keeps (Safe id (Ran n)) (ignore (on_jobs (set_error id e (env.now w.tick)))) =
        search (keeps_rules, safe_rules, Ran-quiet) depth 9 in
      dropped-Returned (Failed id n) (on_jobs (set_error id e (env.now w.tick)) w')
        ((Yields-Failed id n e (env.now w.tick)).at w' s') (calm.at w' s').1

  -- An error is recorded, and returned.
  pub refused-Ended :
      (stage code text : String) (last : Error) (w : World)
      → Safe id (Ran n) w
      → Ended id n ((do handle_error env id stage code text; fail last) w)
  unfolding ◌>>=◌
  refused-Ended stage code text last w s =
      then-Ended id n last (handle_error env id stage code text w)
        (handle_error-Returned stage code text w s)

  Keeps-dlq_outcome : (e : DlqEntry) (o : Option String) → Keeps (Failed id n) (dlq_outcome e o)
  unfolding dlq_outcome put_entry
  Keeps-dlq_outcome e (some text) = search (keeps_rules)
  Keeps-dlq_outcome e none = record {
    at = λ w s. (record { valid = s.valid; held = s.held; logged = s.logged }, tt);
  }

  Keeps-move_to_dlq : (reason : String) → Keeps (Failed id n) (move_to_dlq env id reason)
  unfolding move_to_dlq ◌>>=◌ on_jobs
  Keeps-move_to_dlq reason = record {
    at = λ w s.
        let (p, got, read) = pointer_found w.jobs id s.held.0 s.held.1 in
        let rest : Keeps (Failed id n)
            (do now ← time env; r ← ask env.run; dlq_outcome (new_entry reason now s.held.0) r) =
          search (keeps_rules, frame_rules, Framed-Holds, Ran-quiet, Keeps-dlq_outcome) depth 20 in
        rw got (rw read (rest.at w s));
  }

  dropped : (reason : String) → Keeps (Failed id n) (ignore (move_to_dlq env id reason))
  dropped reason = search (keeps_rules, Keeps-move_to_dlq)

  moved :
      (reason : String) (last : Error) (r : Result (Unit {0}) × World)
      → Returned (Failed id n) r
      → Ended id n (next (λ _. do ignore (move_to_dlq env id reason); fail last) r)
  unfolding ◌>>=◌ ignore
  moved reason last (ok t, w) h =
      then-Ended id n last (ignore (move_to_dlq env id reason) w)
        (kept-Returned (Failed id n) (move_to_dlq env id reason w) ((dropped reason).at w h))
  moved reason last (err e, w) h = absurd h
  moved reason last (panic, w) h = absurd h

  pub give_up-Ended :
      (u : Settings) (last : Error) (code : String) (w : World)
      → Safe id (Ran n) w
      → Ended id n (give_up env u id last code w)
  unfolding give_up ◌>>=◌
  give_up-Ended u last code w s =
      moved _ last (handle_error env id "retry" code _ w) (handle_error-Returned "retry" code _ w s)
