-- ===== src/Ffmpeg/UsePreviews.antt =====
-- generatePreviews of internal/application/usecases/transcode_usecase.go.
use video_encoder_service.Prelude.{◌⊎◌, inl, inr, String, Bool, true, false, Option, none, some}
use video_encoder_service.Types.Error.{Error, M, ◌>>=◌, ◌>>◌, pure, wrapping, try}
use video_encoder_service.Types.Encoding.{VideoInfo}
use video_encoder_service.Types.Job.{AudioInfo}
use video_encoder_service.Transcode.World.{PreviewData, join}
use video_encoder_service.Ffmpeg.Shell.{Shell, Tools, make_dir}
use video_encoder_service.Ffmpeg.Previews.{
  Floats, PreviewConfig, generate_previews, generate_sprite_sheet, generate_preview_clip,
}

-- The path of a file, where it was made.
abbrev path_if_made : Error ⊎ Unit {0} → String → String
path_if_made (inl e) path = ""
path_if_made (inr u) path = path

unfoldable pub audio_info : Bool → Option AudioInfo
audio_info false = none
audio_info true = some (record { normalized = false; standard = "ITU BS.1770" })

module _ (fl : Floats) (t : Tools) where
  open fl use {Float, of_int, of_duration, div, three}

  abbrev quarter : VideoInfo → Float
  quarter info = div (of_duration info.duration) (of_int 4)

  unfoldable pub preview_config : VideoInfo → PreviewConfig fl
  preview_config info = record {
    thumbnail_count = 10;
    gif_duration = three;
    gif_start_time = quarter info;
    thumbnail_width = 320;
    gif_width = 0;
  }

  unfoldable pub generate_job_previews : String → String → String → VideoInfo → M Shell PreviewData
  generate_job_previews outputs id input_path info = do
    let output_dir = join outputs id
    let preview_dir = join output_dir "previews"
    wrapping "failed to create preview directory: " (make_dir t preview_dir)
    output ←
        wrapping "failed to generate previews: "
          (generate_previews fl t input_path output_dir (preview_config info))
    sheet ← try (
        generate_sprite_sheet fl t input_path (join preview_dir "sprite.jpg") (preview_config info))
    clip ← try (
        generate_preview_clip fl t input_path (join preview_dir "preview.mp4") (quarter info) three)
    pure (record {
      thumbnails = output.thumbnails;
      sprite_sheet = path_if_made sheet (join preview_dir "sprite.jpg");
      preview_clip = path_if_made clip (join preview_dir "preview.mp4");
      preview_gif = output.gif;
      audio = audio_info info.has_audio;
    })
