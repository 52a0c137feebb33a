-- ===== src/DeadLetters/Fresh.antt =====
-- CleanupOldDLQEntries removes no entry that is young enough.
use video_encoder_service.Prelude.{
  str_eq, str_eq_iff, ◌⊎◌, inl, inr, ℕ, ◌-◌, ◌*◌, ◌<◌, String, Bool, true, false, ◌≡◌, ◌≢◌, refl,
  sym, ◌∙◌, ap, subst, List, [], ◌∷◌, Option, none, some, map, All, if◌then◌else◌, ltb, ltb→lt,
  Bool-cases, Option-cases,
}
use video_encoder_service.Prelude.Dict
use mathlib.Core.Option.{some-injective}
use video_encoder_service.Types.Error.{◌>>=◌, pure, fail, wrapping, ignore}
use video_encoder_service.Types.Triple.{
  Post, Ensures, Ensures-pure, Ensures-reads, Ensures-bind, Ensures-if, Ensures-weaken,
  Ensures-ignore,
}
use video_encoder_service.Transcode.World.{World, DlqEntry, Env, ask, external, answer_of, time}
use video_encoder_service.Transcode.Execute.{put_entry}
use video_encoder_service.DeadLetters.Service.{
  day, drop_entry, if_read, read_entries, list_dlq_jobs, remove_from_dlq, clean_entries,
  cleanup_old_dlq_entries,
}

-- Each entry is filed under the ID of its job, and no ID twice.
pub record IsFiled (w : World) : Type 0 where
  pub is_map : Dict.IsMap w.dlq
  pub filed : (id : String) (e : DlqEntry) → Dict.lookup id w.dlq ≡ some e → e.job_id ≡ id

-- MoveToDLQ and RemoveFromDLQ leave the entries filed.
put-IsFiled : (e : DlqEntry) (w : World) → IsFiled w → IsFiled (put_entry e w).1
unfolding put_entry
put-IsFiled e w f = record {
  is_map = Dict.insert-IsMap e.job_id e w.dlq f.is_map;
  filed = λ id d look.
      let split = Dict.lookup-insert e.job_id id e w.dlq in
      elim (Bool-cases (str_eq e.job_id id)) [
        | inl same ↦
            let it = some-injective _ _ (sym (rw same at split) ∙ look) in
            ap (λ x. x.job_id) (sym it) ∙ (str_eq_iff e.job_id id).0 same
        | inr other ↦ f.filed id d (sym (rw other at split) ∙ look)
      ];
}

drop-IsFiled : (j : String) (w : World) → IsFiled w → IsFiled (drop_entry j w).1
unfolding drop_entry
drop-IsFiled j w f = record {
  is_map = Dict.delete-IsMap j w.dlq f.is_map;
  filed = λ id d look. f.filed id d (Dict.lookup-delete-some j id w.dlq look);
}

module _ (env : Env) (id : String) (e : DlqEntry) where
  abbrev Held : World → Type 0
  Held w = Dict.lookup id w.dlq ≡ some e

  -- An entry of the job is the one that is held.
  abbrev IsIt : DlqEntry → Type 0
  IsIt x = x.job_id ≡ id → x ≡ e

  asked : {A : Type 0} {I : World → Type 0} (f : ℕ → A) → Ensures I Held (λ _. Held) (ask f)
  unfolding ask
  asked f = record { at = λ w h. h }

  read-IsIt :
      (r : Option String) (x : DlqEntry) (xs : List DlqEntry)
      → IsIt x
      → All IsIt xs
      → All IsIt (if_read r x xs)
  read-IsIt none x xs h hs = (h, hs)
  read-IsIt (some text) x xs h hs = hs

  entries_read :
      {I : World → Type 0} (xs : List DlqEntry)
      → All IsIt xs
      → Ensures I Held (λ ys w. Held w × All IsIt ys) (read_entries env xs)
  unfolding read_entries
  entries_read [] hs = Ensures-pure [] (λ w h. (h, tt))
  entries_read (x ∷ xs) hs =
      Ensures-bind (λ _. Held) _ _ (asked _)
        λ r.
          Ensures-bind (λ ys w. Held w × All IsIt ys) _ _ (entries_read xs hs.1)
            λ ys. Ensures-pure _ (λ w (h, k). (h, read-IsIt r x ys hs.0 k))

  -- What is true of the entries and survives the removal of `j`.
  removed :
      (F : Dict.Dict DlqEntry → Type 0) (j : String)
      → ((m : Dict.Dict DlqEntry) → F m → F (Dict.delete j m))
      → Ensures (λ w. F w.dlq) (λ w. F w.dlq) (λ _ w. F w.dlq) (remove_from_dlq env j)
  unfolding remove_from_dlq drop_entry external answer_of wrapping fail pure ask ◌>>=◌
  removed F j survives =
      Ensures-bind (λ _ w. F w.dlq) _ _ (Ensures-reads _ (λ w h. h))
        λ there.
          Ensures-if there _ _
            (record {
              at = λ w h. elim (Option-cases (env.run w.tick)) [
                | inl fine ↦ rw fine (survives w.dlq h)
                | inr (text, failed) ↦ rw failed h
              ];
            })
            (record { at = λ w h. h })

  one_cleaned :
      {I : World → Type 0} (cutoff : ℕ) (x : DlqEntry) (is_old : Bool)
      → ltb x.moved_at cutoff ≡ is_old
      → ltb e.moved_at cutoff ≡ false
      → IsIt x
      → Ensures I Held
          (λ _. Held)
          (if is_old then ignore (remove_from_dlq env x.job_id) else pure tt)
  one_cleaned cutoff x false old young it = Ensures-pure tt (λ w h. h)
  one_cleaned cutoff x true old young it =
      let other : x.job_id ≢ id = λ same.
        let both : true ≡ false = sym old ∙ ap (λ y. ltb y.moved_at cutoff) (it same) ∙ young in
        cc in
      Ensures-ignore _ (
        removed (λ m. Dict.lookup id m ≡ some e) x.job_id
          (λ m h. Dict.lookup-delete_other x.job_id id m other ∙ h))

  entries_cleaned :
      {I : World → Type 0} (cutoff : ℕ) (xs : List DlqEntry)
      → ltb e.moved_at cutoff ≡ false
      → All IsIt xs
      → Ensures I Held (λ _. Held) (clean_entries env cutoff xs)
  unfolding clean_entries
  entries_cleaned cutoff [] young hs = Ensures-pure tt (λ w h. h)
  entries_cleaned cutoff (x ∷ xs) young hs =
      Ensures-bind (λ _. Held) _ _ (one_cleaned cutoff x _ refl young hs.0)
        λ _. entries_cleaned cutoff xs young hs.1

  total :
      (cutoff : ℕ) (xs : List DlqEntry)
      → Ensures (λ _. ⊥) (λ _. Unit) (λ _ _. Unit) (clean_entries env cutoff xs)
  unfolding clean_entries
  total cutoff [] = Ensures-pure tt (λ w h. tt)
  total cutoff (x ∷ xs) =
      Ensures-bind (λ _ _. Unit) _ _
        (Ensures-if _ _ _ (Ensures-ignore _ (removed (λ _. Unit) x.job_id (λ m h. tt)))
          (Ensures-pure tt (λ w h. tt)))
        λ _. total cutoff xs

  -- What is left of the entry: it is still filed, or it was older than the days at the time.
  abbrev pub Remains : ℕ → World → Type 0
  Remains days_old w =
      (Dict.lookup id w.dlq ≡ some e) ⊎ ((t : ℕ) × (e.moved_at < env.now t - days_old * day))

  cleaned_or_old :
      (days_old t : ℕ) (xs : List DlqEntry)
      → All IsIt xs
      → Ensures
          (λ _. ⊥)
          Held
          (λ _. Remains days_old)
          (clean_entries env (env.now t - days_old * day) xs)
  cleaned_or_old days_old t xs hs =
      let cutoff = env.now t - days_old * day in
      elim (Bool-cases (ltb e.moved_at cutoff)) [
        | inr young ↦
            Ensures-weaken _ (entries_cleaned cutoff xs young hs) (λ w x. x) (λ w h. h)
              (λ a w h. inl h)
        | inl old ↦
            Ensures-weaken _ (total cutoff xs) (λ w x. x) (λ w h. tt)
              (λ a w h. inr (t, ltb→lt e.moved_at cutoff old))
      ]

  cleaned :
      (days_old : ℕ) (w₀ : World)
      → IsFiled w₀
      → Held w₀
      → Post (λ _. ⊥) (λ _. Remains days_old) (cleanup_old_dlq_entries env days_old w₀)
  unfolding cleanup_old_dlq_entries list_dlq_jobs time ask
  cleaned days_old w₀ filed held =
      let its : All IsIt (map (λ e. e.1) w₀.dlq) =
        Dict.values-All IsIt w₀.dlq filed.is_map λ j x look named.
          some-injective _ _ (
            sym look
            ∙ ap (λ i. Dict.lookup i w₀.dlq) (sym (filed.filed j x look) ∙ named)
            ∙ held) in
      let run : Ensures (λ _. ⊥) (λ w. (w ≡ w₀) × Held w) (λ _. Remains days_old)
          (cleanup_old_dlq_entries env days_old) =
        Ensures-bind (λ xs w. Held w × All IsIt xs) _ _
          (Ensures-bind (λ xs w. Held w × All IsIt xs) _ _
            (Ensures-reads _
              (λ w (same, h). (h, subst (λ v. All IsIt (map (λ e. e.1) v.dlq)) (sym same) its)))
            (λ xs. record { at = λ w (h, hs). (entries_read xs hs).at w h }))
          λ xs.
            Ensures-bind (λ now w. Held w × All IsIt xs × ((t : ℕ) × (now ≡ env.now t))) _ _
              (record { at = λ w (h, hs). (h, hs, (w.tick, refl)) })
              λ now. record {
                at = λ w (h, hs, (t, same)).
                    subst
                      (λ n.
                        Post (λ _. ⊥) (λ _. Remains days_old)
                          (clean_entries env (n - days_old * day) xs w))
                      (sym same) ((cleaned_or_old days_old t xs hs).at w h);
              } in
      run.at w₀ (refl, held)

-- CleanupOldDLQEntries never fails or panics. Where each entry is filed under the ID of its job, an
-- entry that was there is still there afterwards, unless it had been moved to the queue more than
-- the given number of days before a time of the clock.
pub cleanup-Remains :
    (env : Env) (days_old : ℕ) (w : World) (id : String) (e : DlqEntry)
    → IsFiled w
    → Dict.lookup id w.dlq ≡ some e
    → Post (λ _. ⊥) (λ _. Remains env id e days_old) (cleanup_old_dlq_entries env days_old w)
cleanup-Remains env days_old w id e filed held = cleaned env id e days_old w filed held
