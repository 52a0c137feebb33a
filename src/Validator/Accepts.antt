-- ===== src/Validator/Accepts.antt =====
-- What ValidateFile accepts.
use video_encoder_service.Prelude.{
  ℕ, ◌≤◌, ◌≡◌, refl, ◌↔◌, String, Bool, true, false, List, map, Option, none, some, codes, one_of,
  arith, leb,
}
use video_encoder_service.Types.Encoding.{VideoInfo}
use video_encoder_service.Validator.Check.{
  ValidationError, Media, max_file_size, max_width, max_height, min_duration, allowed_formats,
  allowed_extensions, first, require, validate_size, validate_extension, validate_mime_type,
  validate_video_stream, validate_resolution, validate_duration, test_decode, validate_file, ext,
  is_listed, lower,
}
use video_encoder_service.Validator.Extension.{HasExtension, ext-HasExtension}

-- There is an answer, and it satisfies `P`.
abbrev pub Answers : {A : Type 0} → (A → Type 0) → Option A → Type 0
Answers P none = ⊥
Answers P (some a) = P a

abbrev pub IsFormat : String → Type 0
IsFormat f = one_of f allowed_formats ≡ true

-- The file that a job can be made for.
pub record IsAcceptable (path : String) (m : Media) : Type 0 where
  pub exists : m.exists ≡ true
  pub size : Answers (λ n. n ≤ max_file_size) m.size
  pub extension : HasExtension (codes path)
  pub format : Answers IsFormat m.format
  pub stream : m.has_stream ≡ true
  pub resolution : Answers (λ i. (i.width ≤ max_width) × (i.height ≤ max_height)) m.resolution
  pub duration : Answers (λ i. min_duration ≤ i.duration) m.duration
  pub decodes : m.decodes ≡ true

first-none : (a b : Option ValidationError) → (first a b ≡ none) ↔ ((a ≡ none) × (b ≡ none))
first-none none b = (λ h. (refl, h), λ h. h.1)
first-none (some e) b = ground arith

require-none : (t : Bool) (code text : String) → (require t code text ≡ none) ↔ (t ≡ true)
require-none true code text = (λ h. refl, λ h. refl)
require-none false code text = ground arith

size-none : (o : Option ℕ) → (validate_size o ≡ none) ↔ Answers (λ n. n ≤ max_file_size) o
unfolding validate_size
size-none none = ground arith
size-none (some n) = ground (arith, require-none (leb n max_file_size))

mime-none : (o : Option String) → (validate_mime_type o ≡ none) ↔ Answers IsFormat o
unfolding validate_mime_type
mime-none none = ground arith
mime-none (some f) = require-none (one_of f allowed_formats) _ _

resolution-none :
    (o : Option VideoInfo)
    → (validate_resolution o ≡ none)
      ↔ Answers (λ i. (i.width ≤ max_width) × (i.height ≤ max_height)) o
unfolding validate_resolution
resolution-none none = ground arith
resolution-none (some i) = ground arith

duration-none :
    (o : Option VideoInfo)
    → (validate_duration o ≡ none) ↔ Answers (λ i. min_duration ≤ i.duration) o
unfolding validate_duration
duration-none none = ground arith
duration-none (some i) = ground arith

extension-none : (path : List ℕ) → (validate_extension path ≡ none) ↔ HasExtension path
unfolding validate_extension
extension-none path =
    let (to, from) = require-none (is_listed (map lower (ext path)) allowed_extensions) _ _ in
    let (there, back) = ext-HasExtension path in (λ h. there (to h), λ h. from (back h))

-- ValidateFile returns no error for exactly the files that exist, have at most 2048 MB, a path that
-- ends in one of the five extensions in any case, one of the three formats, a video stream, at most
-- 3840 by 2160 pixels, a length of at least a tenth of a second, and that decode; where a call
-- about the file fails, it returns an error.
pub validate_file-IsAcceptable :
    (path : String) (m : Media) → (validate_file path m ≡ none) ↔ IsAcceptable path m
unfolding validate_file validate_video_stream test_decode
validate_file-IsAcceptable path m = (
  λ h.
      let (exists, h) = (first-none _ _).0 h in
      let (size, h) = (first-none _ _).0 h in
      let (extension, h) = (first-none _ _).0 h in
      let (format, h) = (first-none _ _).0 h in
      let (stream, h) = (first-none _ _).0 h in
      let (resolution, h) = (first-none _ _).0 h in
      let (duration, decodes) = (first-none _ _).0 h in
      record {
        exists = (require-none m.exists _ _).0 exists;
        size = (size-none m.size).0 size;
        extension = (extension-none (codes path)).0 extension;
        format = (mime-none m.format).0 format;
        stream = (require-none m.has_stream _ _).0 stream;
        resolution = (resolution-none m.resolution).0 resolution;
        duration = (duration-none m.duration).0 duration;
        decodes = (require-none m.decodes _ _).0 decodes;
      },
  λ a. (first-none _ _).1 (
    (require-none m.exists _ _).1 a.exists,
    (first-none _ _).1 (
      (size-none m.size).1 a.size,
      (first-none _ _).1 (
        (extension-none (codes path)).1 a.extension,
        (first-none _ _).1 (
          (mime-none m.format).1 a.format,
          (first-none _ _).1 (
            (require-none m.has_stream _ _).1 a.stream,
            (first-none _ _).1 (
              (resolution-none m.resolution).1 a.resolution,
              (first-none _ _).1 (
                (duration-none m.duration).1 a.duration,
                (require-none m.decodes _ _).1 a.decodes,
              ),
            ),
          ),
        ),
      ),
    ),
  ),
)
