-- ===== src/Validator/Tests.antt =====
-- ValidateFile on a file that it accepts, and its extensions.
use video_encoder_service.Prelude.{◌≡◌, refl, ◌↔◌, true, none, some, codes}
use video_encoder_service.Types.Encoding.{VideoInfo}
use video_encoder_service.Validator.Check.{Media, validate_file, ext}
use video_encoder_service.Validator.Accepts.{IsAcceptable, validate_file-IsAcceptable}

abbrev clip : VideoInfo
clip = record { width = 1920; height = 1080; duration = 12_500_000; has_audio = true }

abbrev media : Media
media = record {
  exists = true;
  size = some 4096;
  format = some "matroska,webm";
  has_stream = true;
  resolution = some clip;
  duration = some clip;
  decodes = true;
}

accepted : validate_file "/in/trailer.v2.MKV" media ≡ none
unfolding validate_file
accepted = refl

ext_dir : ext (codes "/in.mp4/trailer") ≡ codes ""
ext_dir = refl

validate_file-IsAcceptable_example :
    (validate_file "/in/trailer.v2.MKV" media ≡ none) ↔ IsAcceptable "/in/trailer.v2.MKV" media
validate_file-IsAcceptable_example = validate_file-IsAcceptable "/in/trailer.v2.MKV" media
