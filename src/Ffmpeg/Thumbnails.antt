-- ===== src/Ffmpeg/Thumbnails.antt =====
-- The thumbnails of generateThumbnails against the commands that it runs.
use video_encoder_service.Prelude.{
  ℕ, zero, suc, ◌+◌, ◌≡◌, refl, sym, ap, ◌∙◌, String, List, [], ◌∷◌, ◌++◌, Option, none, some,
  reverse,
}
use mathlib.Core.List.{append_assoc, append-nil, reverse-cons}
use video_encoder_service.Types.Error.{Result, ok, err, panic, ◌>>=◌, next, wrapped, wrapping}
use video_encoder_service.Types.Encoding.{VideoInfo}
use video_encoder_service.Transcode.Keeps.{IsCalm}
use video_encoder_service.Types.Triple.{
  Post, Ensures, Ensures-pure, Ensures-bind, Ensures-fail, Ensures-wrapping, Ensures-weaken,
}
use video_encoder_service.Ffmpeg.Shell.{Shell, Tools, query, record_run, no_error, run_command}
use video_encoder_service.Ffmpeg.Probe.{get_video_info}
use video_encoder_service.Ffmpeg.Previews.{
  Floats, PreviewConfig, thumbnail_path, frame_command, thumbnail_loop, generate_thumbnails,
  or_width,
}
use video_encoder_service.Ffmpeg.Calm.{Calm-get_video_info}

abbrev Free : Shell → Type 0
Free s = Unit

-- The commands that were run, the first one first, after those in `old`.
abbrev pub Ran : List (List String) → List (List String) → Shell → Type 0
Ran old cmds s = reverse s.runs ≡ old ++ cmds

recorded :
    (old cmds : List (List String)) (cmd : List String)
    → Ensures Free (Ran old cmds) (λ _. Ran old (cmds ++ cmd ∷ [])) (record_run cmd)
unfolding record_run
recorded old cmds cmd = record {
  at = λ s ran.
      reverse-cons cmd s.runs ∙ ap (λ k. k ++ cmd ∷ []) ran ∙ append_assoc old cmds (cmd ∷ []);
}

asked :
    (old cmds : List (List String)) {A : Type 0} (f : ℕ → A)
    → Ensures Free (Ran old cmds) (λ _. Ran old cmds) (query f)
unfolding query
asked old cmds f = record { at = λ s ran. ran }

checked :
    (old cmds : List (List String)) (o : Option String)
    → Ensures Free (Ran old cmds) (λ _. Ran old cmds) (no_error o)
unfolding no_error
checked old cmds none = Ensures-pure tt λ s h. h
checked old cmds (some text) = Ensures-fail _ λ s h. tt

module _ (fl : Floats) (t : Tools) (input dir : String) (width : ℕ) (interval : fl.Float) where
  -- The paths of `left` thumbnails from number `i` on, and the commands that make them, in order.
  abbrev pub paths : ℕ → ℕ → List String
  paths zero i = []
  paths (suc left) i = thumbnail_path dir i ∷ paths left (suc i)

  abbrev pub commands : ℕ → ℕ → List (List String)
  commands zero i = []
  commands (suc left) i =
      frame_command fl (fl.mul interval (fl.of_int i)) input width (thumbnail_path dir i)
      ∷ commands left (suc i)

  Ran-one :
      (old cmds : List (List String)) (cmd : List String)
      → Ensures Free (Ran old cmds) (λ _. Ran old (cmds ++ cmd ∷ [])) (run_command t cmd)
  unfolding run_command
  Ran-one old cmds cmd =
      Ensures-bind (λ _. Ran old (cmds ++ cmd ∷ [])) _ _ (recorded old cmds cmd)
        λ u. Ensures-bind (λ _. Ran old (cmds ++ cmd ∷ [])) _ _ (asked old _ _) λ o. checked old _ o

  looped :
      (old : List (List String)) (left i : ℕ) (cmds : List (List String)) (done : List String)
      → Ensures Free
          (Ran old cmds)
          (λ files s. (files ≡ done ++ paths left i) × Ran old (cmds ++ commands left i) s)
          (thumbnail_loop fl t input dir width interval left i done)
  unfolding thumbnail_loop
  looped old zero i cmds done =
      Ensures-pure done
        λ s ran. (sym (append-nil done), ran ∙ ap (λ k. old ++ k) (sym (append-nil cmds)))
  looped old (suc left) i cmds done =
      let cmd =
        frame_command fl (fl.mul interval (fl.of_int i)) input width (thumbnail_path dir i) in
      Ensures-bind (λ _. Ran old (cmds ++ cmd ∷ [])) _ _
        (Ensures-wrapping _ _ (Ran-one old cmds cmd))
        λ u.
          Ensures-weaken _
            (looped old left (suc i) (cmds ++ cmd ∷ []) (done ++ thumbnail_path dir i ∷ []))
            (λ s h. h) (λ s h. h)
            (λ files s (same, ran). (
              same ∙ append_assoc done (thumbnail_path dir i ∷ []) (paths left (suc i)),
              ran ∙ ap (λ k. old ++ k) (append_assoc cmds (cmd ∷ []) (commands left (suc i))),
            ))

-- The files and the commands for a video of a duration.
abbrev pub Thumbnails :
    (fl : Floats)
    → Tools
    → String
    → String
    → PreviewConfig fl
    → ℕ
    → List (List String)
    → List String
    → Shell
    → Type 0
Thumbnails fl t input dir config duration before files s =
    let interval = fl.div (fl.of_duration duration) (fl.of_int (config.thumbnail_count + 1)) in
    let width = or_width 320 config.thumbnail_width in
    (files ≡ paths fl t input dir width interval config.thumbnail_count 1)
    × Ran before (commands fl t input dir width interval config.thumbnail_count 1) s

-- What follows the probe.
probed :
    (fl : Floats) (t : Tools) (input dir : String) (config : PreviewConfig fl)
    (r : Result VideoInfo × Shell)
    → IsCalm r.0
    → Post
        (λ _. Unit {0})
        (λ files w.
          (info : VideoInfo) × (r.0 ≡ ok info)
          × Thumbnails fl t input dir config info.duration (reverse r.1.runs) files w)
        (next
          (λ info.
            thumbnail_loop fl t input dir
              (or_width 320 config.thumbnail_width)
              (fl.div (fl.of_duration info.duration) (fl.of_int (config.thumbnail_count + 1)))
              config.thumbnail_count
              1
              [])
          (wrapped "failed to probe video: " r))
probed fl t input dir config (ok info, s) calm =
    let interval = fl.div (fl.of_duration info.duration) (fl.of_int (config.thumbnail_count + 1)) in
    (Ensures-weaken _
        (looped fl t input dir (or_width 320 config.thumbnail_width) interval (reverse s.runs)
          config.thumbnail_count 1 [] [])
        (λ w h. h) (λ w h. h) (λ files w h. (info, refl, h))).at
      s (sym (append-nil (reverse s.runs)))
probed fl t input dir config (err e, s) calm = tt
probed fl t input dir config (panic, s) calm = absurd calm

-- generateThumbnails never panics. Where it returns files, its probe has returned a duration, the
-- files are as many as configured, numbered from 1 on, and after the commands that it finds and those
-- of the probe it has run one command for each, in their order: it takes the frame at the file's
-- number times that duration divided by one more than the count.
pub generate_thumbnails-Thumbnails :
    (fl : Floats) (t : Tools) (input dir : String) (config : PreviewConfig fl) (s : Shell)
    → Post
        (λ _. Unit {0})
        (λ files w.
          (info : VideoInfo) × ((get_video_info t input s).0 ≡ ok info)
          × Thumbnails fl t input dir config info.duration
              (reverse (get_video_info t input s).1.runs)
              files
              w)
        (generate_thumbnails fl t input dir config s)
unfolding generate_thumbnails wrapping ◌>>=◌
generate_thumbnails-Thumbnails fl t input dir config s =
    probed fl t input dir config (get_video_info t input s) ((Calm-get_video_info t input).at s)
