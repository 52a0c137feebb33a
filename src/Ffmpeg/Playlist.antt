-- ===== src/Ffmpeg/Playlist.antt =====
-- The master playlist of a job: GenerateMasterPlaylist and parseBitrate of
-- internal/infrastructure/ffmpeg/encoder.go.
use video_encoder_service.Prelude.{
  ℕ, ◌+◌, ◌*◌, ◌-◌, String, Bool, List, [], ◌∷◌, codes, str_append, decimal, if◌then◌else◌,
}
use video_encoder_service.Prelude.Decimal.{is_digit}
use video_encoder_service.Types.Error.{M, ◌>>◌, pure, wrapping}
use video_encoder_service.Types.Encoding.{QualityVariant}
use video_encoder_service.Ffmpeg.Shell.{Shell, Tools, create_file, write_string}

-- `%d` of fmt.Sscanf on a text with no sign or space in front: the digits up to the first byte that
-- is none.
unfoldable pub scan_number : ℕ → List ℕ → ℕ
scan_number acc [] = acc
scan_number acc (c ∷ s) =
    let more = scan_number (acc * 10 + (c - b'0')) s in if is_digit c then more else acc

unfoldable pub parse_bitrate : String → ℕ
parse_bitrate bitrate = scan_number 0 (codes bitrate) * 1000

unfoldable pub bandwidth_of : QualityVariant → Bool → ℕ
bandwidth_of v has_audio = parse_bitrate v.bitrate + (if has_audio then 128_000 else 0)

unfoldable pub codec_text : Bool → String
codec_text has_audio = if has_audio then "avc1.640028,mp4a.40.2" else "avc1.640028"

-- The line of a variant and the line of its playlist.
unfoldable pub stream_line : QualityVariant → Bool → String
stream_line v has_audio = str_append "#EXT-X-STREAM-INF:BANDWIDTH=" (
    str_append (decimal (bandwidth_of v has_audio)) (
      str_append ",RESOLUTION=" (
        str_append (decimal v.width) (
          str_append "x" (
            str_append (decimal v.height)
              (str_append ",CODECS=\"" (str_append (codec_text has_audio) "\"\n")))))))

unfoldable pub uri_line : QualityVariant → String
uri_line v = str_append v.name "/main.m3u8\n\n"

module _ (t : Tools) where
  unfoldable pub write_variants : String → List QualityVariant → Bool → M Shell (Unit {0})
  write_variants path [] has_audio = pure tt
  write_variants path (v ∷ vs) has_audio = do
    write_string t path (stream_line v has_audio)
    write_string t path (uri_line v)
    write_variants path vs has_audio

  unfoldable pub generate_master_playlist : String → List QualityVariant → Bool → M Shell (Unit {0})
  generate_master_playlist path variants has_audio = do
    wrapping "failed to create master playlist: " (create_file t path)
    write_string t path "#EXTM3U\n"
    write_string t path "#EXT-X-VERSION:3\n"
    write_variants path variants has_audio
