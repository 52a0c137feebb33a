-- ===== src/Ffmpeg/Tests.antt =====
-- The theorems on the package ffmpeg at two variants, of which one fails, and with audio.
use video_encoder_service.Prelude.{
  ◌≡◌, refl, true, false, [], ◌∷◌, none, some, codes, All, List, ℕ, if◌then◌else◌, ◌==◌, ◌/◌, ◌*◌,
  ltb, decimal, reverse,
}
use video_encoder_service.Prelude.Decimal.{Plain}
use video_encoder_service.Types.Encoding.{QualityVariant, VideoInfo}
use video_encoder_service.Types.Error.{ok}
use video_encoder_service.Types.Triple.{Post}
use video_encoder_service.Transcode.World.{join}
use video_encoder_service.Ffmpeg.Shell.{Shell, Tools}
use video_encoder_service.Ffmpeg.Playlist.{generate_master_playlist}
use video_encoder_service.Ffmpeg.Hls.{
  encode_hls_with_partial_success, encode_variants, no_tally, hls_dir,
}
use video_encoder_service.Ffmpeg.Reader.{plain, Plain-literal}
use video_encoder_service.Ffmpeg.Written.{IsWhole, Plays, Refused, generate_master_playlist-Plays}
use video_encoder_service.Ffmpeg.Separate.{encode_separate_av}
use video_encoder_service.Ffmpeg.Listed.{Listed, encode_separate_av-Listed}
use video_encoder_service.Samples.{info}
use video_encoder_service.Ffmpeg.Probe.{get_video_info}
use video_encoder_service.Ffmpeg.Previews.{Floats, PreviewConfig, generate_thumbnails}
use video_encoder_service.Ffmpeg.Thumbnails.{Thumbnails, generate_thumbnails-Thumbnails}
use video_encoder_service.Ffmpeg.Tallied.{Tallied, Failed, encode_hls-Tallied}

-- The ninth call of an external program fails.
abbrev tools : Tools
tools = record {
  run = λ n cmd. if n == 8 then some "exit status 1" else none;
  output = λ n cmd. some "1280\n720\n60.0";
  stderr = λ n. some "frame=1";
  file = λ n path. none;
  cut = λ n text. text;
  glob = λ n pattern. some 15;
  times_out = λ n. false;
  scan = λ text. some (record { width = 1280; height = 720; duration = 60_000_000 });
  seconds = λ text. some 60_000_000;
  report = λ text. none;
  loudness = λ text. none;
}

abbrev shell : Shell
shell = record { tick = 0; runs = []; texts = [] }

abbrev variants : List QualityVariant
variants =
    record {
      name = "240p";
      width = 426;
      height = 240;
      bitrate = "400k";
      max_rate = "428k";
      buf_size = "600k";
    }
    ∷ record {
      name = "360p";
      width = 640;
      height = 360;
      bitrate = "800k";
      max_rate = "856k";
      buf_size = "1200k";
    }
    ∷ []

all-IsWhole : IsWhole tools
all-IsWhole n text = refl

all-Plain : All (λ v. Plain (codes v.name)) variants
unfolding plain
all-Plain = (Plain-literal (codes "240p") refl, (Plain-literal (codes "360p") refl, tt))

generate_master_playlist-Plays_example :
    Post
      (λ _. Refused tools "master.m3u8" shell.tick)
      (λ _. Plays "master.m3u8" true variants)
      (generate_master_playlist tools "master.m3u8" variants true shell)
generate_master_playlist-Plays_example =
    generate_master_playlist-Plays tools "master.m3u8" variants true shell all-IsWhole all-Plain

encode_hls-Tallied_example :
    Post
      (λ _.
        Failed tools
          (join (hls_dir "outputs" "job_5") "master.m3u8")
          (encode_variants tools "outputs" "job_5" "a.mp4" 6 variants true no_tally shell).0)
      (λ enc w. Tallied variants (join (hls_dir "outputs" "job_5") "master.m3u8") true enc w)
      (encode_hls_with_partial_success tools "outputs" "job_5" "a.mp4" 6 variants true shell)
encode_hls-Tallied_example =
    encode_hls-Tallied tools "outputs" "job_5" "a.mp4" 6 variants true shell all-IsWhole all-Plain

default-Plain : Plain (codes "Default")
unfolding plain
default-Plain = Plain-literal (codes "Default") refl

encode_separate_av-Listed_example :
    Post
      (λ _. Unit {0})
      (λ r w. Listed "outputs/job_5" r w)
      (encode_separate_av tools (λ lang. "Default") "a.mp4" "outputs/job_5" info 6 shell)
encode_separate_av-Listed_example =
    encode_separate_av-Listed tools (λ lang. "Default") "a.mp4" "outputs/job_5" info 6 shell
      default-Plain

-- Whole numbers in place of the floating-point ones.
abbrev whole_numbers : Floats
whole_numbers = record {
  Float = ℕ;
  of_int = λ n. n;
  of_duration = λ n. n;
  div = λ a b. a / b;
  mul = λ a b. a * b;
  is_positive = λ a. ltb 0 a;
  is_zero = λ a. a == 0;
  three = 3_000_000;
  two_places = decimal;
  six_places = decimal;
}

abbrev preview_config : PreviewConfig whole_numbers
preview_config = record {
  thumbnail_count = 3;
  gif_duration = 3_000_000;
  gif_start_time = 15_000_000;
  thumbnail_width = 320;
  gif_width = 0;
}

generate_thumbnails-Thumbnails_example :
    Post
      (λ _. Unit {0})
      (λ files w.
        (v : VideoInfo) × ((get_video_info tools "a.mp4" shell).0 ≡ ok v)
        × Thumbnails whole_numbers tools "a.mp4" "previews" preview_config v.duration
            (reverse (get_video_info tools "a.mp4" shell).1.runs)
            files
            w)
      (generate_thumbnails whole_numbers tools "a.mp4" "previews" preview_config shell)
generate_thumbnails-Thumbnails_example =
    generate_thumbnails-Thumbnails whole_numbers tools "a.mp4" "previews" preview_config shell
