-- ===== src/Ffmpeg/Arguments.antt =====
-- The arguments of ffmpeg: buildFFmpegArgs and buildVarStreamMap of
-- internal/infrastructure/ffmpeg/encoder.go, and buildSingleQualityArgs of quality_encoder.go beside
-- it.
use video_encoder_service.Prelude.{
  ℕ, suc, String, Bool, true, false, List, [], ◌∷◌, ◌++◌, str_append, decimal, if◌then◌else◌, ltb,
}
use video_encoder_service.Types.Encoding.{QualityVariant}
use video_encoder_service.Transcode.World.{join}

-- `fmt.Sprintf("scale=%d:%d", width, height)`
unfoldable pub scale : ℕ → ℕ → String
scale width height =
    str_append "scale=" (str_append (decimal width) (str_append ":" (decimal height)))

unfoldable pub audio_args : Bool → List String
audio_args false = []
audio_args true = "-c:a" ∷ "aac" ∷ "-ar" ∷ "48000" ∷ "-b:a" ∷ "128k" ∷ []

unfoldable pub build_single_quality_args : String → String → QualityVariant → ℕ → Bool → List String
build_single_quality_args input_path output_dir v chunk_duration has_audio =
    ("-i"
      ∷ input_path
      ∷ "-vf"
      ∷ scale v.width v.height
      ∷ "-c:v"
      ∷ "libx264"
      ∷ "-b:v"
      ∷ v.bitrate
      ∷ "-maxrate"
      ∷ v.max_rate
      ∷ "-bufsize"
      ∷ v.buf_size
      ∷ [])
    ++ audio_args has_audio
    ++ "-f"
      ∷ "hls"
      ∷ "-hls_time"
      ∷ decimal chunk_duration
      ∷ "-hls_playlist_type"
      ∷ "vod"
      ∷ "-hls_segment_filename"
      ∷ join output_dir "chunk_%03d.ts"
      ∷ "-y"
      ∷ join output_dir "main.m3u8"
      ∷ []

-- The filters and the settings of each variant; `i` counts the variants before it.
unfoldable pub variant_args : ℕ → List QualityVariant → List String
variant_args i [] = []
variant_args i (v ∷ vs) =
    str_append "-filter:v:" (decimal i)
    ∷ scale v.width v.height
    ∷ str_append "-c:v:" (decimal i)
    ∷ "libx264"
    ∷ str_append "-b:v:" (decimal i)
    ∷ v.bitrate
    ∷ str_append "-maxrate:v:" (decimal i)
    ∷ v.max_rate
    ∷ str_append "-bufsize:v:" (decimal i)
    ∷ v.buf_size
    ∷ variant_args (suc i) vs

unfoldable pub map_args : Bool → List QualityVariant → List String
map_args has_audio [] = []
map_args true (v ∷ vs) = "-map" ∷ "0:v" ∷ "-map" ∷ "0:a" ∷ map_args true vs
map_args false (v ∷ vs) = "-map" ∷ "0:v" ∷ map_args false vs

unfoldable pub stream_text : ℕ → Bool → String → String
stream_text i true name =
    str_append "v:" (
      str_append (decimal i) (str_append ",a:" (str_append (decimal i) (str_append ",name:" name))))
stream_text i false name = str_append "v:" (str_append (decimal i) (str_append ",name:" name))

-- The loop of buildVarStreamMap.
unfoldable pub stream_map_loop : ℕ → Bool → List QualityVariant → String → String
stream_map_loop i has_audio [] text = text
stream_map_loop i has_audio (v ∷ vs) text =
    stream_map_loop (suc i) has_audio vs
      (str_append (if ltb 0 i then str_append text " " else text) (stream_text i has_audio v.name))

unfoldable pub build_var_stream_map : List QualityVariant → Bool → String
build_var_stream_map variants has_audio = stream_map_loop 0 has_audio variants ""

unfoldable pub build_ffmpeg_args : String → String → ℕ → List QualityVariant → Bool → List String
build_ffmpeg_args input_path hls_dir chunk_duration variants has_audio =
    ("-i" ∷ input_path ∷ [])
    ++ variant_args 0 variants
    ++ audio_args has_audio
    ++ map_args has_audio variants
    ++ ("-f"
        ∷ "hls"
        ∷ "-hls_time"
        ∷ decimal chunk_duration
        ∷ "-hls_playlist_type"
        ∷ "vod"
        ∷ "-master_pl_name"
        ∷ "master.m3u8"
        ∷ [])
    ++ "-var_stream_map"
      ∷ build_var_stream_map variants has_audio
      ∷ "-hls_segment_filename"
      ∷ join (join hls_dir "%v") "chunk_%03d.ts"
      ∷ "-y"
      ∷ join (join hls_dir "%v") "main.m3u8"
      ∷ []
