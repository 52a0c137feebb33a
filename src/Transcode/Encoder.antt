-- ===== src/Transcode/Encoder.antt =====
-- SelectVariants of internal/infrastructure/ffmpeg/encoder.go, EncodeQuality and its error codes of
-- quality_encoder.go beside it, and selectQualities of
-- internal/application/usecases/separate_av_encoder.go.
use video_encoder_service.Prelude.{
  ◌⊎◌, inl, inr, ℕ, String, Bool, true, false, List, [], ◌∷◌, Option, none, some, keep, leb, ◌&&◌,
  if◌then◌else◌, ◌==◌, str_eq, one_of,
}
use video_encoder_service.Prelude.Dict
use video_encoder_service.Types.Error.{try, Error, new_error, M, ◌>>=◌, ◌>>◌, pure, fail, wrapping}
use video_encoder_service.Types.Encoding.{QualityVariant, quality_ladder}
use video_encoder_service.Transcode.World.{
  World, Disk, Env, ask, log_event, encodes, set_disk, or_fail, external, join,
}

abbrev pub first_of_ladder : List QualityVariant → List QualityVariant
first_of_ladder [] = []
first_of_ladder (v ∷ vs) = v ∷ []

-- "Always include at least one variant"
abbrev pub or_lowest : List QualityVariant → List QualityVariant → List QualityVariant
or_lowest ladder [] = first_of_ladder ladder
or_lowest ladder (v ∷ vs) = v ∷ vs

-- SelectVariants reads no width.
unfoldable pub select_variants : ℕ → ℕ → List QualityVariant
select_variants width height =
    or_lowest quality_ladder (keep (λ v. leb v.height height) quality_ladder)

pub record QualitySpec : Type 0 where
  pub name : String
  pub width : ℕ
  pub height : ℕ
  pub bitrate : String
  pub bandwidth_kbps : ℕ

abbrev pub spec : String → ℕ → ℕ → String → ℕ → QualitySpec
spec name width height bitrate kbps = record {
  name = name;
  width = width;
  height = height;
  bitrate = bitrate;
  bandwidth_kbps = kbps;
}

unfoldable pub all_qualities : List QualitySpec
all_qualities =
    spec "240p" 426 240 "400k" 400
    ∷ spec "360p" 640 360 "800k" 800
    ∷ spec "480p" 854 480 "1200k" 1200
    ∷ spec "720p" 1280 720 "2500k" 2500
    ∷ spec "1080p" 1920 1080 "5000k" 5000
    ∷ spec "1440p" 2560 1440 "8000k" 8000
    ∷ spec "4k" 3840 2160 "12000k" 12000
    ∷ []

unfoldable pub select_qualities : ℕ → ℕ → List QualitySpec
select_qualities width height = keep (λ q. leb q.width width && leb q.height height) all_qualities

unfoldable pub get_quality_error_code : String → String
get_quality_error_code quality =
    if str_eq quality "240p"
    then "ERR_ENCODING_240P_FAILED"
    else if str_eq quality "360p"
    then "ERR_ENCODING_360P_FAILED"
    else if str_eq quality "480p"
    then "ERR_ENCODING_480P_FAILED"
    else if str_eq quality "720p"
    then "ERR_ENCODING_720P_FAILED"
    else if str_eq quality "1080p"
    then "ERR_ENCODING_1080P_FAILED"
    else if str_eq quality "1440p"
    then "ERR_ENCODING_1440P_FAILED"
    else if str_eq quality "4K"
    then "ERR_ENCODING_4K_FAILED"
    else "ERR_ENCODING_FAILED"

pub record QualityEncodingResult : Type 0 where
  pub quality : String
  pub success : Bool
  pub error : Option Error
  pub error_code : String
  pub playlist : String
  pub chunks_dir : String
  pub chunk_count : ℕ

abbrev pub dirs_of : Option (List String) → List String
dirs_of none = []
dirs_of (some names) = names

-- The directory of a quality of a job is there.
abbrev pub add_dir : String → String → Disk → Disk
add_dir id name d = record d {
  quality_dirs = Dict.insert id (name ∷ dirs_of (Dict.lookup id d.quality_dirs)) d.quality_dirs;
}

abbrev pub has_dir : String → String → Disk → Bool
has_dir id name d = one_of name (dirs_of (Dict.lookup id d.quality_dirs))

abbrev pub quality_dir : String → String → String → String
quality_dir outputs id name = join (join (join outputs id) "hls") name

unfoldable pub chunks_or_fail : ℕ → M World ℕ
chunks_or_fail n = if n == 0 then fail (new_error "no chunks generated") else pure n

unfoldable pub to_result : String → String → Error ⊎ ℕ → QualityEncodingResult
to_result name dir (inr n) = record {
  quality = name;
  success = true;
  error = none;
  error_code = "";
  playlist = join dir "main.m3u8";
  chunks_dir = dir;
  chunk_count = n;
}
to_result name dir (inl e) = record {
  quality = name;
  success = false;
  error = some e;
  error_code = get_quality_error_code name;
  playlist = "";
  chunks_dir = "";
  chunk_count = 0;
}

module _ (env : Env) where
  -- The calls of EncodeQuality, up to the first that fails. The watchdog's timeout is one of the
  -- ways in which the run of ffmpeg fails.
  unfoldable pub quality_chunks : String → String → String → M World ℕ
  quality_chunks id input_path name = do
    wrapping "failed to create variant dir: " (external env)
    set_disk (add_dir id name)
    info ← ask (λ n. env.video_info n input_path)
    v ← wrapping "failed to get video info: " (or_fail (new_error "ffprobe failed") info)
    log_event (encodes id name)
    external env
    n ← ask env.chunks
    chunks_or_fail n

  -- EncodeQuality: an error of a call is a field of the result.
  unfoldable pub encode_quality : String → String → String → String → M World QualityEncodingResult
  encode_quality outputs id input_path name = do
    r ← try (quality_chunks id input_path name)
    pure (to_result name (quality_dir outputs id name) r)
