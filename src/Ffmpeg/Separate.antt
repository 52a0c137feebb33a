-- ===== src/Ffmpeg/Separate.antt =====
-- EncodeSeparateAV of internal/application/usecases/separate_av_encoder.go with its commands, and
-- internal/infrastructure/ffmpeg/master_playlist.go.
use video_encoder_service.Prelude.{
  ◌⊎◌, inl, inr, ℕ, ◌*◌, String, Bool, true, false, List, [], ◌∷◌, ◌++◌, map, str_append, decimal,
  str_eq, if◌then◌else◌,
}
use video_encoder_service.Types.Error.{Error, M, ◌>>=◌, ◌>>◌, pure, wrapping, try}
use video_encoder_service.Types.Encoding.{VideoInfo}
use video_encoder_service.Transcode.World.{join}
use video_encoder_service.Transcode.Encoder.{QualitySpec, select_qualities}
use video_encoder_service.Ffmpeg.Shell.{Shell, Tools, write_file}
use video_encoder_service.Ffmpeg.Audio.{
  AudioQuality, ensure_dir, extract_audio, process_audio, generate_multi_quality_audio,
  encode_video_only,
}

pub record VideoVariant : Type 0 where
  pub resolution : String
  pub bandwidth : ℕ
  pub width : ℕ
  pub height : ℕ
  pub playlist : String

pub record AudioVariant : Type 0 where
  pub language : String
  pub name : String
  pub bitrate : ℕ
  pub is_default : Bool
  pub playlist : String

abbrev yes_or_no : Bool → String
yes_or_no true = "YES"
yes_or_no false = "NO"

unfoldable pub media_line : AudioVariant → String
media_line v = str_append "#EXT-X-MEDIA:TYPE=AUDIO,GROUP-ID=\"audio\",NAME=\"" (
    str_append v.name (
      str_append "\",LANGUAGE=\"" (
        str_append v.language (
          str_append "\",AUTOSELECT=" (
            str_append (yes_or_no v.is_default) (
              str_append ",DEFAULT=" (
                str_append (yes_or_no v.is_default)
                  (str_append ",URI=\"" (str_append v.playlist "\"\n")))))))))

unfoldable pub media_lines : List AudioVariant → String
media_lines [] = ""
media_lines (v ∷ vs) = str_append (media_line v) (media_lines vs)

unfoldable pub audio_part : List AudioVariant → String
audio_part [] = ""
audio_part (v ∷ vs) = str_append "# Audio Renditions\n" (str_append (media_lines (v ∷ vs)) "\n")

abbrev audio_group : List AudioVariant → String
audio_group [] = ""
audio_group (v ∷ vs) = ",AUDIO=\"audio\""

unfoldable pub video_lines : String → List VideoVariant → String
video_lines group [] = ""
video_lines group (v ∷ vs) = str_append "#EXT-X-STREAM-INF:BANDWIDTH=" (
    str_append (decimal v.bandwidth) (
      str_append ",RESOLUTION=" (
        str_append (decimal v.width) (
          str_append "x" (
            str_append (decimal v.height) (
              str_append group (
                str_append "\n"
                  (str_append v.playlist (str_append "\n" (video_lines group vs))))))))))

unfoldable pub master_text : List VideoVariant → List AudioVariant → String
master_text videos audios = str_append "#EXTM3U\n#EXT-X-VERSION:6\n\n" (
    str_append (audio_part audios)
      (str_append "# Video Renditions\n" (video_lines (audio_group audios) videos)))

-- The entry of qualityMap.
unfoldable pub quality_entry : String → ℕ → ℕ → ℕ → VideoVariant
quality_entry name width height bandwidth = record {
  resolution = name;
  bandwidth = bandwidth;
  width = width;
  height = height;
  playlist = str_append "video/" (str_append name "/main.m3u8");
}

unfoldable pub quality_map : List VideoVariant
unfolding quality_entry
quality_map =
    quality_entry "240p" 426 240 400_000
    ∷ quality_entry "360p" 640 360 800_000
    ∷ quality_entry "480p" 854 480 1_200_000
    ∷ quality_entry "720p" 1280 720 2_500_000
    ∷ quality_entry "1080p" 1920 1080 5_000_000
    ∷ quality_entry "1440p" 2560 1440 8_000_000
    ∷ quality_entry "4k" 3840 2160 12_000_000
    ∷ []

unfoldable pub find_quality : String → List VideoVariant → List VideoVariant
find_quality name [] = []
find_quality name (v ∷ vs) =
    let rest = find_quality name vs in if str_eq v.resolution name then v ∷ [] else rest

-- A quality that is not in the map is left out.
unfoldable pub video_variants : List String → List VideoVariant
video_variants [] = []
video_variants (name ∷ names) = find_quality name quality_map ++ video_variants names

-- `title` is strings.Title. The first language is the default.
unfoldable pub audio_variants : (String → String) → Bool → List String → List AudioVariant
audio_variants title first [] = []
audio_variants title first (lang ∷ langs) =
    record {
      language = lang;
      name = title lang;
      bitrate = 192_000;
      is_default = first;
      playlist = str_append "audio/" (str_append lang "/192k/main.m3u8");
    }
    ∷ audio_variants title false langs

pub record VideoTrack : Type 0 where
  pub quality : String
  pub resolution : String
  pub bandwidth : ℕ
  pub playlist : String

pub record AudioTrack : Type 0 where
  pub language : String
  pub bitrate : String
  pub playlist : String
  pub is_default : Bool

pub record SeparateResult : Type 0 where
  pub video_tracks : List VideoTrack
  pub audio_tracks : List AudioTrack
  pub master_playlist : String

abbrev pub audio_track : AudioQuality → AudioTrack
audio_track q = record {
  language = "default";
  bitrate = q.bitrate;
  playlist = q.playlist;
  is_default = str_eq q.bitrate "192k";
}

abbrev pub video_track : QualitySpec → VideoTrack
video_track q = record {
  quality = q.name;
  resolution = str_append (decimal q.width) (str_append "x" (decimal q.height));
  bandwidth = q.bandwidth_kbps * 1000;
  playlist = join (join "video" q.name) "main.m3u8";
}

abbrev pub keep_video : Error ⊎ Unit {0} → QualitySpec → List VideoTrack → List VideoTrack
keep_video (inl e) q tracks = tracks
keep_video (inr u) q tracks = tracks ++ video_track q ∷ []

module _ (t : Tools) (title : String → String) where
  unfoldable pub write_master : String → List VideoVariant → List AudioVariant → M Shell (Unit {0})
  write_master path videos audios =
      wrapping "failed to write master playlist: " (write_file t path (master_text videos audios))

  unfoldable pub generate_separate_audio_video_master :
      String → List String → List String → M Shell (Unit {0})
  generate_separate_audio_video_master base_dir qualities languages =
      write_master (join base_dir "master.m3u8") (video_variants qualities)
        (audio_variants title true languages)

  -- A video track that cannot be encoded is left out.
  unfoldable pub encode_video_tracks :
      String → String → ℕ → List QualitySpec → List VideoTrack → M Shell (List VideoTrack)
  encode_video_tracks input_path video_dir chunk_duration [] tracks = pure tracks
  encode_video_tracks input_path video_dir chunk_duration (q ∷ qs) tracks = do
    let dir = join video_dir q.name
    ensure_dir t dir
    r ← try (encode_video_only t input_path dir q.width q.height q.bitrate chunk_duration)
    encode_video_tracks input_path video_dir chunk_duration qs (keep_video r q tracks)

  unfoldable pub encode_separate_av : String → String → VideoInfo → ℕ → M Shell SeparateResult
  encode_separate_av input_path output_dir info chunk_duration = do
    let processed = join output_dir "processed_audio.aac"
    wrapping "failed to extract audio: " (extract_audio t input_path output_dir "raw_audio.aac")
    wrapping "failed to process audio: "
        (process_audio t (join output_dir "raw_audio.aac") processed "192k")
    audio ← wrapping "failed to generate audio HLS: " (
        generate_multi_quality_audio t processed (join (join output_dir "audio") "default")
          chunk_duration)
    videos ←
        encode_video_tracks input_path (join output_dir "video") chunk_duration
          (select_qualities info.width info.height) []
    wrapping "failed to generate master playlist: " (
        generate_separate_audio_video_master output_dir (map (λ v. v.quality) videos)
          ("default" ∷ []))
    pure (record {
      video_tracks = videos;
      audio_tracks = map audio_track audio;
      master_playlist = join output_dir "master.m3u8";
    })
