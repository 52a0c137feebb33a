-- ===== src/Ffmpeg/Runs.antt =====
-- Runs of the code of the package ffmpeg on small inputs.
use video_encoder_service.Prelude.{◌≡◌, refl, true, false, String, [], ◌∷◌, codes, decimal}
use video_encoder_service.Types.Encoding.{QualityVariant}
use video_encoder_service.Ffmpeg.Arguments.{build_var_stream_map, stream_map_loop, stream_text}
use video_encoder_service.Ffmpeg.Playlist.{parse_bitrate, scan_number}
use video_encoder_service.Ffmpeg.Quality.{watchdog_timeout}
use video_encoder_service.Ffmpeg.Probe.{trim_space, trim_left}
use video_encoder_service.Ffmpeg.Previews.{sprite_rows}
use video_encoder_service.Ffmpeg.Audio.{parse_int, or_default}

abbrev variant : String → QualityVariant
variant name = record {
  name = name;
  width = 426;
  height = 240;
  bitrate = "400k";
  max_rate = "428k";
  buf_size = "600k";
}

stream_map :
    build_var_stream_map (variant "240p" ∷ variant "360p" ∷ []) true
    ≡ "v:0,a:0,name:240p v:1,a:1,name:360p"
unfolding build_var_stream_map stream_map_loop stream_text decimal
stream_map = refl

silent_stream_map : build_var_stream_map (variant "240p" ∷ []) false ≡ "v:0,name:240p"
unfolding build_var_stream_map stream_map_loop stream_text decimal
silent_stream_map = refl

bitrate_of_text : parse_bitrate "5000k" ≡ 5_000_000
unfolding parse_bitrate scan_number
bitrate_of_text = refl

-- A text with no number gets the default of parseInt, but a bandwidth of 0 from parseBitrate.
no_bitrate : parse_bitrate "fast" ≡ 0
unfolding parse_bitrate scan_number
no_bitrate = refl

default_bitrate : parse_int "fast" ≡ 2500
unfolding parse_int or_default scan_number
default_bitrate = refl

-- A video of 90.7 seconds: the timeout is 181 seconds and the buffer.
long_timeout : watchdog_timeout 90_700_000 ≡ 241_000_000
unfolding watchdog_timeout
long_timeout = refl

short_timeout : watchdog_timeout 10_000_000 ≡ 120_000_000
unfolding watchdog_timeout
short_timeout = refl

format_trimmed : trim_space (codes " mov,mp4\n") ≡ codes "mov,mp4"
unfolding trim_space trim_left
format_trimmed = refl

two_rows : sprite_rows 10 ≡ 2
unfolding sprite_rows
two_rows = refl

three_rows : sprite_rows 11 ≡ 3
unfolding sprite_rows
three_rows = refl
