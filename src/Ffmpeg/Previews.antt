-- ===== src/Ffmpeg/Previews.antt =====
-- internal/infrastructure/ffmpeg/preview_generator.go. Floating-point numbers are a parameter, with
-- the operations that the source uses.
use video_encoder_service.Prelude.{
  ◌⊎◌, inl, inr, ℕ, suc, zero, ◌+◌, ◌-◌, ◌/◌, String, Bool, List, [], ◌∷◌, ◌++◌, str_append,
  decimal, ◌==◌, ltb, if◌then◌else◌,
}
use video_encoder_service.Types.Error.{Error, M, ◌>>=◌, ◌>>◌, pure, fail, wrapping, try}
use video_encoder_service.Transcode.World.{join}
use video_encoder_service.Ffmpeg.Shell.{Shell, Tools, run_command, make_dir, query}
use video_encoder_service.Ffmpeg.Probe.{get_video_info}

pub record Floats : Type 1 where
  pub Float : Type 0
  pub of_int : ℕ → Float
  pub of_duration : ℕ → Float
  pub div : Float → Float → Float
  pub mul : Float → Float → Float
  pub is_positive : Float → Bool
  pub is_zero : Float → Bool
  pub three : Float
  -- `%.2f` and `%f`
  pub two_places : Float → String
  pub six_places : Float → String

pub record PreviewOutput : Type 0 where
  pub thumbnails : List String
  pub gif : String

unfoldable pub or_width : ℕ → ℕ → ℕ
or_width default width = if width == 0 then default else width

unfoldable pub scale_width : ℕ → String
scale_width width = str_append "scale=" (str_append (decimal width) ":-1")

unfoldable pub thumbnail_path : String → ℕ → String
thumbnail_path dir i = join dir (str_append "thumb_" (str_append (decimal i) ".jpg"))

-- The number of rows of a sprite sheet with five columns.
unfoldable pub sprite_rows : ℕ → ℕ
sprite_rows count = (count + 5 - 1) / 5

module _ (fl : Floats) where
  open fl use {
    Float, of_int, of_duration, div, mul, is_positive, is_zero, three, two_places, six_places,
  }

  pub record PreviewConfig : Type 0 where
    pub thumbnail_count : ℕ
    pub gif_duration : Float
    pub gif_start_time : Float
    pub thumbnail_width : ℕ
    pub gif_width : ℕ

  unfoldable pub frame_command : Float → String → ℕ → String → List String
  frame_command timestamp input_path width path =
      "ffmpeg"
      ∷ "-ss"
      ∷ two_places timestamp
      ∷ "-i"
      ∷ input_path
      ∷ "-vframes"
      ∷ "1"
      ∷ "-vf"
      ∷ scale_width width
      ∷ "-q:v"
      ∷ "2"
      ∷ "-y"
      ∷ path
      ∷ []

  module _ (t : Tools) where
    -- The loop of generateThumbnails: `left` thumbnails, from number `i` on.
    unfoldable pub thumbnail_loop :
        String → String → ℕ → Float → ℕ → ℕ → List String → M Shell (List String)
    thumbnail_loop input_path dir width interval zero i done = pure done
    thumbnail_loop input_path dir width interval (suc left) i done = do
      wrapping (str_append "failed to generate thumbnail " (str_append (decimal i) ": ")) (
          run_command t
            (frame_command (mul interval (of_int i)) input_path width (thumbnail_path dir i)))
      thumbnail_loop input_path dir width interval left (suc i) (done ++ thumbnail_path dir i ∷ [])

    unfoldable pub generate_thumbnails : String → String → PreviewConfig → M Shell (List String)
    generate_thumbnails input_path dir config = do
      info ← wrapping "failed to probe video: " (get_video_info t input_path)
      let interval = div (of_duration info.duration) (of_int (config.thumbnail_count + 1))
      thumbnail_loop input_path dir (or_width 320 config.thumbnail_width) interval
          config.thumbnail_count 1 []

    unfoldable pub or_three : Float → Float
    or_three duration = if is_zero duration then three else duration

    unfoldable pub gif_filter : ℕ → String → String
    gif_filter width rest =
        str_append "fps=10,scale="
          (str_append (decimal width) (str_append ":-1:flags=lanczos" rest))

    -- os.Remove of the palette is deferred to the end.
    unfoldable pub palette_removed : Error ⊎ Unit {0} → String → M Shell String
    palette_removed (inl e) gif = fail e
    palette_removed (inr u) gif = pure gif

    unfoldable pub generate_gif : String → String → PreviewConfig → M Shell String
    generate_gif input_path dir config = do
      let width = or_width 480 config.gif_width
      let start = two_places config.gif_start_time
      let length = two_places (or_three config.gif_duration)
      let palette = join dir "palette.png"
      let gif = join dir "preview.gif"
      wrapping "failed to generate palette: " (
          run_command t (
            "ffmpeg"
            ∷ "-ss"
            ∷ start
            ∷ "-t"
            ∷ length
            ∷ "-i"
            ∷ input_path
            ∷ "-vf"
            ∷ gif_filter width ",palettegen"
            ∷ "-y"
            ∷ palette
            ∷ []))
      made ← try (
          wrapping "failed to generate GIF: " (
            run_command t (
              "ffmpeg"
              ∷ "-ss"
              ∷ start
              ∷ "-t"
              ∷ length
              ∷ "-i"
              ∷ input_path
              ∷ "-i"
              ∷ palette
              ∷ "-filter_complex"
              ∷ gif_filter width "[x];[x][1:v]paletteuse"
              ∷ "-y"
              ∷ gif
              ∷ [])))
      removed ← query (λ n. t.file n palette)
      palette_removed made gif

    unfoldable pub thumbnails_if_wanted : String → String → PreviewConfig → M Shell (List String)
    thumbnails_if_wanted input_path dir config =
        if ltb 0 config.thumbnail_count
        then wrapping "failed to generate thumbnails: " (generate_thumbnails input_path dir config)
        else pure []

    unfoldable pub gif_if_wanted : String → String → PreviewConfig → M Shell String
    gif_if_wanted input_path dir config =
        if is_positive config.gif_duration
        then wrapping "failed to generate GIF: " (generate_gif input_path dir config)
        else pure ""

    unfoldable pub generate_previews : String → String → PreviewConfig → M Shell PreviewOutput
    generate_previews input_path output_dir config = do
      let dir = join output_dir "previews"
      wrapping "failed to create preview directory: " (make_dir t dir)
      thumbnails ← thumbnails_if_wanted input_path dir config
      gif ← gif_if_wanted input_path dir config
      pure (record { thumbnails = thumbnails; gif = gif })

    unfoldable pub generate_single_thumbnail : String → String → Float → ℕ → M Shell (Unit {0})
    generate_single_thumbnail input_path output_path timestamp width =
        wrapping "failed to generate thumbnail: "
          (run_command t (frame_command timestamp input_path (or_width 320 width) output_path))

    unfoldable pub sprite_filter : Float → ℕ → ℕ → String
    sprite_filter interval width count = str_append "fps=1/" (
        str_append (six_places interval) (
          str_append ","
            (str_append (scale_width width) (str_append ",tile=5x" (decimal (sprite_rows count))))))

    unfoldable pub generate_sprite_sheet : String → String → PreviewConfig → M Shell (Unit {0})
    generate_sprite_sheet input_path output_path config = do
      info ← wrapping "failed to probe video: " (get_video_info t input_path)
      let count = or_width 10 config.thumbnail_count
      let interval = div (of_duration info.duration) (of_int (count + 1))
      wrapping "failed to generate sprite sheet: " (
          run_command t (
            "ffmpeg"
            ∷ "-i"
            ∷ input_path
            ∷ "-vf"
            ∷ sprite_filter interval (or_width 160 config.thumbnail_width) count
            ∷ "-frames:v"
            ∷ "1"
            ∷ "-q:v"
            ∷ "2"
            ∷ "-y"
            ∷ output_path
            ∷ []))

    unfoldable pub generate_preview_clip : String → String → Float → Float → M Shell (Unit {0})
    generate_preview_clip input_path output_path start_time duration =
        wrapping "failed to generate preview clip: " (
          run_command t (
            "ffmpeg"
            ∷ "-ss"
            ∷ two_places start_time
            ∷ "-t"
            ∷ two_places (or_three duration)
            ∷ "-i"
            ∷ input_path
            ∷ "-c:v"
            ∷ "libx264"
            ∷ "-preset"
            ∷ "fast"
            ∷ "-crf"
            ∷ "23"
            ∷ "-c:a"
            ∷ "aac"
            ∷ "-b:a"
            ∷ "128k"
            ∷ "-movflags"
            ∷ "+faststart"
            ∷ "-y"
            ∷ output_path
            ∷ []))
