-- ===== src/Ffmpeg/Hls.antt =====
-- EncodeHLS, EncodeHLSWithPartialSuccess and collectEncodingResults of
-- internal/infrastructure/ffmpeg/encoder.go.
use video_encoder_service.Prelude.{
  ℕ, String, Bool, List, [], ◌∷◌, ◌++◌, Option, none, some, length, str_append, if◌then◌else◌,
}
use video_encoder_service.Types.Error.{
  Error, message, new_error, wrap, M, ◌>>=◌, ◌>>◌, pure, fail, wrapping,
}
use video_encoder_service.Types.Encoding.{QualityVariant, QualityOutputInfo, EncodeResult}
use video_encoder_service.Transcode.World.{join}
use video_encoder_service.Transcode.Encoder.{QualityEncodingResult, select_variants}
use video_encoder_service.Transcode.Qualities.{Encoded, output_of, partial_or_not}
use video_encoder_service.Ffmpeg.Shell.{Shell, Tools, query, given, make_dir}
use video_encoder_service.Ffmpeg.Probe.{get_video_info}
use video_encoder_service.Ffmpeg.Playlist.{generate_master_playlist}
use video_encoder_service.Ffmpeg.Quality.{encode_quality}

-- The variables of the loop.
pub record Tally : Type 0 where
  pub outputs : List QualityOutputInfo
  pub successful : List QualityVariant
  pub failed : List String
  pub last_error : Option Error

abbrev pub no_tally : Tally
no_tally = record { outputs = []; successful = []; failed = []; last_error = none }

unfoldable pub count_result : QualityVariant → QualityEncodingResult → Tally → Tally
count_result v r acc =
    if r.success
    then record acc {
      outputs = acc.outputs ++ output_of r ∷ [];
      successful = acc.successful ++ v ∷ [];
    }
    else record acc { failed = acc.failed ++ v.name ∷ []; last_error = r.error }

-- `fmt.Errorf("...: %w", lastError)`, also of no error.
abbrev pub all_failed : Option Error → Error
all_failed none = message "all quality encodings failed: %!w(<nil>)"
all_failed (some e) = wrap "all quality encodings failed: " e

abbrev pub hls_dir : String → String → String
hls_dir outputs id = join (join outputs id) "hls"

module _ (t : Tools) (outputs : String) where
  unfoldable pub encode_variants :
      String → String → ℕ → List QualityVariant → Bool → Tally → M Shell Tally
  encode_variants id input_path chunk_duration [] has_audio acc = pure acc
  encode_variants id input_path chunk_duration (v ∷ vs) has_audio acc = do
    r ← encode_quality t id input_path v chunk_duration outputs has_audio
    encode_variants id input_path chunk_duration vs has_audio (count_result v r acc)

  -- What follows the loop; the partial success is an error that comes with its result.
  unfoldable pub finish_hls : String → Bool → ℕ → Tally → List QualityVariant → M Shell Encoded
  finish_hls id has_audio total acc [] = fail (all_failed acc.last_error)
  finish_hls id has_audio total acc (v ∷ vs) = do
    let path = join (hls_dir outputs id) "master.m3u8"
    wrapping "failed to generate master playlist: "
        (generate_master_playlist t path (v ∷ vs) has_audio)
    pure (record {
      result = record { master_playlist = path; quality_outputs = acc.outputs };
      variants = v ∷ vs;
      partial = partial_or_not acc.failed (length (v ∷ vs)) total;
    })

  unfoldable pub encode_hls_with_partial_success :
      String → String → ℕ → List QualityVariant → Bool → M Shell Encoded
  encode_hls_with_partial_success id input_path chunk_duration variants has_audio = do
    acc ← encode_variants id input_path chunk_duration variants has_audio no_tally
    finish_hls id has_audio (length variants) acc acc.successful

  unfoldable pub encode_hls : String → String → ℕ → M Shell Encoded
  encode_hls id input_path chunk_duration = do
    info ← wrapping "failed to detect resolution: " (get_video_info t input_path)
    wrapping "failed to create HLS dir: " (make_dir t (hls_dir outputs id))
    encode_hls_with_partial_success id input_path chunk_duration
        (select_variants info.width info.height) info.has_audio

module _ (t : Tools) where
  unfoldable pub collect_outputs : String → List QualityVariant → M Shell (List QualityOutputInfo)
  collect_outputs dir [] = pure []
  collect_outputs dir (v ∷ vs) = do
    let variant_dir = join dir v.name
    found ← query (λ n. t.glob n (join variant_dir "chunk_*.ts"))
    n ←
        wrapping (str_append "failed to list chunks for variant " (str_append v.name ": "))
          (given (new_error "syntax error in pattern") found)
    rest ← collect_outputs dir vs
    pure (
        record {
          quality = v.name;
          playlist = join variant_dir "main.m3u8";
          chunks_dir = variant_dir;
          chunk_count = n;
        }
        ∷ rest)

  unfoldable pub collect_encoding_results : String → List QualityVariant → M Shell EncodeResult
  collect_encoding_results dir variants = do
    outputs ← collect_outputs dir variants
    pure (record { master_playlist = join dir "master.m3u8"; quality_outputs = outputs })
