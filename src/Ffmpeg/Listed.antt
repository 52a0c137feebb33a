-- ===== src/Ffmpeg/Listed.antt =====
-- The tracks that EncodeSeparateAV reports against the master playlist that it writes.
use video_encoder_service.Prelude.{
  ◌⊎◌, inl, inr, ℕ, ◌≡◌, refl, String, Bool, true, List, [], ◌∷◌, map, Option, none, some, All,
  All-append, keep, Bool-cases,
}
use video_encoder_service.Prelude.{str_append, decimal, codes, ap, ◌∙◌}
use video_encoder_service.Prelude.Decimal.{Plain}
use video_encoder_service.Ffmpeg.Reader.{Entry, read_playlist, plain, Plain-literal}
use video_encoder_service.Ffmpeg.Separated.{entry_of_video, read_master}
use video_encoder_service.Prelude.Dict
use video_encoder_service.Types.Error.{Error, ◌>>◌}
use video_encoder_service.Types.Encoding.{VideoInfo}
use video_encoder_service.Types.Triple.{
  Post, Ensures, Ensures-pure, Ensures-bind, Ensures-fail, Ensures-wrapping,
}
use video_encoder_service.Transcode.World.{join}
use video_encoder_service.Transcode.Encoder.{QualitySpec, spec, all_qualities, select_qualities}
use video_encoder_service.Ffmpeg.Shell.{Shell, Tools, set_text, no_error, left_of, write_file}
use video_encoder_service.Ffmpeg.Audio.{
  AudioQuality, ensure_dir, extract_audio, process_audio, generate_audio_hls,
  generate_audio_qualities, generate_multi_quality_audio, encode_video_only,
}
use video_encoder_service.Ffmpeg.Separate.{
  VideoVariant, quality_entry, quality_map, find_quality, video_variants, audio_variants,
  master_text, AudioTrack, VideoTrack, SeparateResult, video_track, keep_video, write_master,
  generate_separate_audio_video_master, encode_video_tracks, encode_separate_av,
}
use video_encoder_service.Ffmpeg.Calm.{
  Calm, Calm-run_command, Calm-wrapping, Calm-try, Calm-bind, Calm-query, Calm-no_error,
  Calm-set_text, calm_rules, of_Calm,
}

-- A stream of the master playlist, as a player reads it, that shows a track.
pub record Shows (t : VideoTrack) (e : Entry) : Type 0 where
  pub bandwidth : e.bandwidth ≡ t.bandwidth
  pub size : str_append (decimal e.width) (str_append "x" (decimal e.height)) ≡ t.resolution
  pub uri : e.uri ≡ codes t.playlist

abbrev pub ShowsAll : List VideoTrack → List Entry → Type 0
ShowsAll [] [] = Unit
ShowsAll (t ∷ ts) (e ∷ es) = Shows t e × ShowsAll ts es
ShowsAll [] (e ∷ es) = ⊥
ShowsAll (t ∷ ts) [] = ⊥

-- qualityMap has the quality of a track, with its numbers.
abbrev Known : VideoTrack → Type 0
Known t =
    (v : VideoVariant) × (find_quality t.quality quality_map ≡ v ∷ [])
    × Shows t (entry_of_video v)
    × Plain (codes v.playlist)

entry_known :
    (q : QualitySpec) (v : VideoVariant)
    → find_quality q.name quality_map ≡ v ∷ []
    → (v.width ≡ q.width) × (v.height ≡ q.height)
    → v.bandwidth ≡ (video_track q).bandwidth
    → v.playlist ≡ (video_track q).playlist
    → plain (codes v.playlist) ≡ true
    → Known (video_track q)
entry_known q v found (wide, high) bandwidth playlist one_line = (
  v,
  found,
  record {
    bandwidth = bandwidth;
    size =
        ap (λ w. str_append (decimal w) (str_append "x" (decimal v.height))) wide
        ∙ ap (λ h. str_append (decimal q.width) (str_append "x" (decimal h))) high;
    uri = ap codes playlist;
  },
  Plain-literal (codes v.playlist) one_line,
)

all_known : All (λ q. Known (video_track q)) all_qualities
unfolding all_qualities quality_map quality_entry find_quality plain
all_known = (
  entry_known (spec "240p" 426 240 "400k" 400) (quality_entry "240p" 426 240 400000) refl
      (refl, refl) refl refl refl,
  (
    entry_known (spec "360p" 640 360 "800k" 800) (quality_entry "360p" 640 360 800000) refl
        (refl, refl) refl refl refl,
    (
      entry_known (spec "480p" 854 480 "1200k" 1200) (quality_entry "480p" 854 480 1200000) refl
          (refl, refl) refl refl refl,
      (
        entry_known (spec "720p" 1280 720 "2500k" 2500) (quality_entry "720p" 1280 720 2500000) refl
            (refl, refl) refl refl refl,
        (
          entry_known (spec "1080p" 1920 1080 "5000k" 5000)
              (quality_entry "1080p" 1920 1080 5000000) refl (refl, refl) refl refl refl,
          (
            entry_known (spec "1440p" 2560 1440 "8000k" 8000)
                (quality_entry "1440p" 2560 1440 8000000) refl (refl, refl) refl refl refl,
            (
              entry_known (spec "4k" 3840 2160 "12000k" 12000)
                  (quality_entry "4k" 3840 2160 12000000) refl (refl, refl) refl refl refl,
              tt,
            ),
          ),
        ),
      ),
    ),
  ),
)

All-keep : {A : Type 0} (P : A → Type 0) (p : A → Bool) (xs : List A) → All P xs → All P (keep p xs)
All-keep P p [] h = tt
All-keep P p (x ∷ xs) (h, hs) = elim (Bool-cases (p x)) [
  | inl holds ↦ rw holds (h, All-keep P p xs hs)
  | inr fails ↦ rw fails (All-keep P p xs hs)
]

shown :
    (ts : List VideoTrack)
    → All Known ts
    → (vs : List VideoVariant) × (video_variants (map (λ t. t.quality) ts) ≡ vs)
      × ShowsAll ts (map entry_of_video vs)
      × All (λ v. Plain (codes v.playlist)) vs
unfolding video_variants
shown [] h = ([], refl, tt, tt)
shown (t ∷ ts) ((v, found, s, one), hs) =
    let (vs, same, all, plain_paths) = shown ts hs in
    (v ∷ vs, rw found (ap (λ k. v ∷ k) same), (s, all), (one, plain_paths))

abbrev Free : Shell → Type 0
Free s = Unit

module _ (t : Tools) (title : String → String) where
  Calm-ensure_dir : (path : String) → Calm (ensure_dir t path)
  unfolding ensure_dir
  Calm-ensure_dir path = Calm-run_command t _

  Calm-extract : (input dir name : String) → Calm (extract_audio t input dir name)
  unfolding extract_audio
  Calm-extract input dir name = search (calm_rules, Calm-run_command, Calm-ensure_dir) depth 20

  Calm-process : (input output rate : String) → Calm (process_audio t input output rate)
  unfolding process_audio
  Calm-process input output rate = search (calm_rules, Calm-run_command) depth 20

  Calm-audio_hls : (input dir rate : String) (n : ℕ) → Calm (generate_audio_hls t input dir rate n)
  unfolding generate_audio_hls
  Calm-audio_hls input dir rate n = search (calm_rules, Calm-run_command) depth 20

  Calm-audio :
      (input base : String) (n : ℕ) (qs : List (String × String)) (done : List AudioQuality)
      → Calm (generate_audio_qualities t input base n qs done)
  unfolding generate_audio_qualities
  Calm-audio input base n [] done = search (calm_rules)
  Calm-audio input base n ((name, rate) ∷ qs) done = Calm-bind _ _ (Calm-ensure_dir _) λ u.
      Calm-bind _ _ (Calm-wrapping _ _ (Calm-audio_hls _ _ _ _)) λ w. Calm-audio input base n qs _

  Calm-video :
      (input dir : String) (w h : ℕ) (rate : String) (n : ℕ)
      → Calm (encode_video_only t input dir w h rate n)
  unfolding encode_video_only
  Calm-video input dir w h rate n = search (calm_rules, Calm-run_command) depth 20

  kept :
      (r : Error ⊎ Unit {0}) (q : QualitySpec) (ts : List VideoTrack)
      → Known (video_track q)
      → All Known ts
      → All Known (keep_video r q ts)
  kept (inl e) q ts k ks = ks
  kept (inr u) q ts k ks = All-append Known ts _ ks (k, tt)

  tracks_known :
      (input dir : String) (n : ℕ) (qs : List QualitySpec) (ts : List VideoTrack)
      → All (λ q. Known (video_track q)) qs
      → All Known ts
      → Ensures Free Free (λ us s. All Known us) (encode_video_tracks t title input dir n qs ts)
  unfolding encode_video_tracks
  tracks_known input dir n [] ts k ks = Ensures-pure ts λ s h. ks
  tracks_known input dir n (q ∷ qs) ts (k, rest) ks =
      Ensures-bind (λ _. Free) _ _ (of_Calm _ (Calm-ensure_dir _))
        λ u.
          Ensures-bind (λ _. Free) _ _ (of_Calm _ (Calm-try _ (Calm-video _ _ _ _ _ _)))
            λ r. tracks_known input dir n qs (keep_video r q ts) rest (kept r q ts k ks)

  -- The file at a path.
  abbrev pub Holds : String → String → Shell → Type 0
  Holds path text s = Dict.lookup path s.texts ≡ some text

  stored : (path text : String) → Ensures Free Free (λ _. Holds path text) (set_text path text)
  unfolding set_text
  stored path text = record { at = λ s h. Dict.lookup-insert_self path text s.texts }

  stored_or_failed :
      (path text part : String) (failed : Option String)
      → Ensures Free Free
          (λ _. Holds path text)
          (do set_text path (left_of failed text part); no_error failed)
  unfolding left_of no_error
  stored_or_failed path text part none =
      Ensures-bind (λ _. Holds path text) _ _ (stored path text) λ u. Ensures-pure tt λ s held. held
  stored_or_failed path text part (some why) =
      Ensures-bind (λ _. Free) _ _ (of_Calm _ (Calm-set_text path part))
        λ u. Ensures-fail _ λ s h. tt

  file_written :
      (path text : String) → Ensures Free Free (λ _. Holds path text) (write_file t path text)
  unfolding write_file
  file_written path text =
      Ensures-bind (λ _. Free) _ _ (of_Calm _ (Calm-query _))
        λ opened.
          Ensures-bind (λ _. Free) _ _ (of_Calm _ (Calm-no_error opened))
            λ u.
              Ensures-bind (λ _. Free) _ _ (of_Calm _ (Calm-query _))
                λ failed.
                  Ensures-bind (λ _. Free) _ _ (of_Calm _ (Calm-query _))
                    λ part. stored_or_failed path text part failed

-- What EncodeSeparateAV reports, with the file that it leaves as a player reads it.
pub record Listed (output_dir : String) (r : SeparateResult) (s : Shell) : Type 0 where
  pub text : String
  pub file : Dict.lookup r.master_playlist s.texts ≡ some text
  pub shows : ShowsAll r.video_tracks (read_playlist (codes text))
  pub path : r.master_playlist ≡ join output_dir "master.m3u8"

listed :
    (title : String → String) (output_dir : String) (ts : List VideoTrack) (audio : List AudioTrack)
    (s : Shell)
    → Plain (codes (title "default"))
    → All Known ts
    → Dict.lookup (join output_dir "master.m3u8") s.texts
      ≡ some (
          master_text
            (video_variants (map (λ t. t.quality) ts))
            (audio_variants title true ("default" ∷ [])))
    → Listed output_dir
        (record {
          video_tracks = ts;
          audio_tracks = audio;
          master_playlist = join output_dir "master.m3u8";
        })
        s
listed title output_dir ts audio s named known held =
    let (vs, same, all, plain_paths) = shown ts known in
    record {
      text = master_text vs (audio_variants title true ("default" ∷ []));
      file = rw same at held;
      shows = rw (read_master title vs named plain_paths) all;
      path = refl;
    }

-- EncodeSeparateAV never panics. Where it returns a result, a player that reads the file at the path
-- of its master playlist line by line finds one stream for each video track of the result, in order
-- and no others, with the bandwidth and the resolution of the track and the path of its playlist: no
-- track that selectQualities can choose is missing in qualityMap. The premise is that strings.Title
-- makes no line break of "default".
pub encode_separate_av-Listed :
    (t : Tools) (title : String → String) (input output_dir : String) (info : VideoInfo) (n : ℕ)
    (s : Shell)
    → Plain (codes (title "default"))
    → Post
        (λ _. Unit {0})
        (λ r w. Listed output_dir r w)
        (encode_separate_av t title input output_dir info n s)
unfolding encode_separate_av select_qualities generate_multi_quality_audio
    generate_separate_audio_video_master write_master
encode_separate_av-Listed t title input output_dir info n s named =
    (Ensures-bind (λ _. Free) _ _
        (of_Calm _ (Calm-wrapping _ _ (Calm-extract t title input output_dir "raw_audio.aac")))
        λ u.
          Ensures-bind (λ _. Free) _ _ (of_Calm _ (Calm-wrapping _ _ (Calm-process t title _ _ _)))
            λ v.
              Ensures-bind (λ _. Free) _ _
                (of_Calm _ (Calm-wrapping _ _ (Calm-audio t title _ _ n _ [])))
                λ audio.
                  Ensures-bind (λ ts _. All Known ts) _ _
                    (tracks_known t title input _ n _ [] (All-keep _ _ all_qualities all_known) tt)
                    λ ts. record {
                      at = λ w known.
                          (Ensures-bind
                              (λ _. Holds t title (join output_dir "master.m3u8") (
                                master_text (video_variants (map (λ x. x.quality) ts))
                                  (audio_variants title true ("default" ∷ []))))
                              _ _
                              (Ensures-wrapping _ _
                                (Ensures-wrapping _ _ (file_written t title _ _)))
                              λ x.
                                Ensures-pure _
                                  λ y held. listed title output_dir ts _ y named known held).at
                            w tt;
                    }).at
      s tt
