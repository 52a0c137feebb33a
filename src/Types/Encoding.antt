-- ===== src/Types/Encoding.antt =====
-- pkg/types/encoding.go: the quality ladder and the results of encoding.
use video_encoder_service.Prelude.{ℕ, String, Bool, List, [], ◌∷◌}

pub record QualityVariant : Type 0 where
  pub name : String
  pub width : ℕ
  pub height : ℕ
  pub bitrate : String
  pub max_rate : String
  pub buf_size : String

pub record VideoInfo : Type 0 where
  pub width : ℕ
  pub height : ℕ
  pub duration : ℕ
  pub has_audio : Bool

pub record QualityOutputInfo : Type 0 where
  pub quality : String
  pub playlist : String
  pub chunks_dir : String
  pub chunk_count : ℕ

pub record EncodeResult : Type 0 where
  pub master_playlist : String
  pub quality_outputs : List QualityOutputInfo

abbrev variant : String → ℕ → ℕ → String → String → String → QualityVariant
variant name width height bitrate max_rate buf_size = record {
  name = name;
  width = width;
  height = height;
  bitrate = bitrate;
  max_rate = max_rate;
  buf_size = buf_size;
}

unfoldable pub quality_ladder : List QualityVariant
quality_ladder =
    variant "240p" 426 240 "400k" "428k" "600k"
    ∷ variant "360p" 640 360 "800k" "856k" "1200k"
    ∷ variant "480p" 854 480 "1200k" "1284k" "1800k"
    ∷ variant "720p" 1280 720 "2500k" "2675k" "3750k"
    ∷ variant "1080p" 1920 1080 "5000k" "5350k" "7500k"
    ∷ variant "1440p" 2560 1440 "8000k" "8560k" "12000k"
    ∷ variant "4K" 3840 2160 "15000k" "16050k" "22500k"
    ∷ []
