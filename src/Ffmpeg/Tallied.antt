-- ===== src/Ffmpeg/Tallied.antt =====
-- What EncodeHLSWithPartialSuccess reports of the variants that it was given.
use video_encoder_service.Prelude.{
  ◌⊎◌, inl, inr, ℕ, ◌+◌, ◌≤◌, ◌≡◌, refl, sym, subst, ◌∙◌, String, Bool, List, [], ◌∷◌, none, some,
  codes, length, All, arith,
}
use video_encoder_service.Prelude.Decimal.{Plain}
use video_encoder_service.Types.Error.{Result, ok, err, panic, next, ◌>>=◌, partial_success}
use video_encoder_service.Types.Encoding.{QualityVariant}
use video_encoder_service.Types.Triple.{
  Post, Ensures, Ensures-pure, Ensures-bind, Ensures-fail, Ensures-wrapping, Post-weaken,
}
use video_encoder_service.Transcode.World.{join}
use video_encoder_service.Transcode.Qualities.{Encoded, partial_or_not}
use video_encoder_service.Ffmpeg.Shell.{Shell, Tools}
use video_encoder_service.Ffmpeg.Playlist.{generate_master_playlist}
use video_encoder_service.Ffmpeg.Hls.{
  Tally, no_tally, encode_variants, finish_hls, encode_hls_with_partial_success, hls_dir,
}
use video_encoder_service.Ffmpeg.Written.{IsWhole, Plays, Refused, generate_master_playlist-Plays}
use video_encoder_service.Ffmpeg.Looped.{Parts, over, succeeds, fails, Outputs, Free, Adds, looped}

-- Why there is no result, after a loop that came to `r`.
abbrev pub Failed : Tools → String → Result Tally → Type 0
Failed t path r =
    ((acc : Tally) × (r ≡ ok acc) × (acc.successful ≡ [])) ⊎ ((k : ℕ) × Refused t path k)

length-Parts :
    {vs good : List QualityVariant} {bad : List String}
    → Parts vs good bad
    → length good + length bad ≡ length vs
length-Parts over = omega arith
length-Parts (succeeds v p) = omega (arith, length-Parts p)
length-Parts (fails v p) = omega (arith, length-Parts p)

All-Parts :
    (P : QualityVariant → Type 0) {vs good : List QualityVariant} {bad : List String}
    → Parts vs good bad
    → All P vs
    → All P good
All-Parts P over h = tt
All-Parts P (succeeds v p) (h, hs) = (h, All-Parts P p hs)
All-Parts P (fails v p) (h, hs) = All-Parts P p hs

-- What is returned, with the file that is left.
pub record Tallied (vs : List QualityVariant) (path : String) (a : Bool) (enc : Encoded) (s : Shell)
    : Type 0 where
  pub failures : List String
  pub parts : Parts vs enc.variants failures
  pub outputs : Outputs enc.variants enc.result.quality_outputs
  pub some_good : 1 ≤ length enc.variants
  pub partial :
      ((failures ≡ []) × (enc.partial ≡ none))
      ⊎ ((1 ≤ length failures)
          × (enc.partial ≡ some (partial_success failures (length enc.variants) (length vs))))
  pub counted : length enc.variants + length failures ≡ length vs
  pub plays : Plays path a enc.variants s

reported :
    (bad : List String) (n total : ℕ)
    → ((bad ≡ []) × (partial_or_not bad n total ≡ none))
      ⊎ ((1 ≤ length bad) × (partial_or_not bad n total ≡ some (partial_success bad n total)))
unfolding partial_or_not
reported [] n total = inl (refl, refl)
reported (b ∷ bs) n total = inr (omega arith, refl)

module _ (t : Tools) (outputs id : String) (a : Bool) (whole : IsWhole t) (vs : List QualityVariant)
    (plain : All (λ v. Plain (codes v.name)) vs) where
  abbrev playlist : String
  playlist = join (hls_dir outputs id) "master.m3u8"

  finished :
      (acc : Tally) (good : List QualityVariant)
      → acc.successful ≡ good
      → Adds vs no_tally acc
      → Ensures
          (λ _. Failed t playlist (ok acc))
          Free
          (λ enc s. Tallied vs playlist a enc s)
          (finish_hls t outputs id a (length vs) acc good)
  unfolding finish_hls
  finished acc [] e d = Ensures-fail _ λ s h. inl (acc, refl, e)
  finished acc (v ∷ good) e d =
      let all_good : d.good ≡ v ∷ good = sym d.successful ∙ e in
      let parts : Parts vs (v ∷ good) acc.failed =
        subst (λ g. Parts vs g acc.failed) all_good
          (subst (λ b. Parts vs d.good b) (sym d.failures) d.parts) in
      Ensures-bind (λ _ s. Plays playlist a (v ∷ good) s) _ _
        (Ensures-wrapping _ _ (record {
          at = λ s h.
              Post-weaken (generate_master_playlist t playlist (v ∷ good) a s)
                (λ w no. inr (s.tick, no)) (λ u w h. h)
                (generate_master_playlist-Plays t playlist (v ∷ good) a s whole
                  (All-Parts (λ q. Plain (codes q.name)) parts plain));
        }))
        λ u. Ensures-pure _ λ s plays. record {
          failures = acc.failed;
          parts = parts;
          outputs =
              subst (λ g. Outputs g acc.outputs) all_good
                (subst (λ o. Outputs d.good o) (sym d.outputs) d.sound);
          some_good = omega arith;
          partial = reported acc.failed (length (v ∷ good)) (length vs);
          counted = length-Parts parts;
          plays = plays;
        }

  finished_after :
      (r : Result Tally × Shell)
      → Post (λ _. ⊥) (λ acc w. Adds vs no_tally acc) r
      → Post
          (λ _. Failed t playlist r.0)
          (λ enc w. Tallied vs playlist a enc w)
          (next (λ acc. finish_hls t outputs id a (length vs) acc acc.successful) r)
  finished_after (ok acc, w) d = (finished acc acc.successful refl d).at w tt
  finished_after (err e, w) d = absurd d
  finished_after (panic, w) d = absurd d

-- EncodeHLSWithPartialSuccess never panics, and it returns an error with no result only where its
-- loop has no successful variant or the file of the master playlist cannot be made. Otherwise each
-- variant, in order, is one of the successful, of which there is at least one, or its name is one of
-- the failed; each successful variant has an output of its name with at least one chunk; the
-- PartialSuccessError stands beside the result exactly where a variant failed, with the names and
-- the counts; and a player of the master playlist finds exactly the successful variants. The premises
-- are that writes are whole and that no name of a variant has a line break.
pub encode_hls-Tallied :
    (t : Tools) (outputs id input : String) (n : ℕ) (vs : List QualityVariant) (a : Bool)
    (s : Shell)
    → IsWhole t
    → All (λ v. Plain (codes v.name)) vs
    → Post
        (λ _.
          Failed t
            (join (hls_dir outputs id) "master.m3u8")
            (encode_variants t outputs id input n vs a no_tally s).0)
        (λ enc w. Tallied vs (join (hls_dir outputs id) "master.m3u8") a enc w)
        (encode_hls_with_partial_success t outputs id input n vs a s)
unfolding encode_hls_with_partial_success ◌>>=◌
encode_hls-Tallied t outputs id input n vs a s whole plain =
    finished_after t outputs id a whole vs plain
      (encode_variants t outputs id input n vs a no_tally s)
      ((looped t outputs id input n a vs no_tally).at s tt)
