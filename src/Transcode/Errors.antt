-- ===== src/Transcode/Errors.antt =====
-- extractErrorCode and contains of internal/application/usecases/transcode_usecase.go.
use video_encoder_service.Prelude.{
  ℕ, zero, suc, ◌+◌, ◌-◌, String, Bool, true, false, ◌&&◌, ◌||◌, List, [], ◌∷◌, length,
  if◌then◌else◌, ltb, leb, ◌==◌, codes, ◌≡◌, refl,
}
use video_encoder_service.Types.Error.{Error, message, error_text}
use video_encoder_service.Types.Retry.{
  code_ffmpeg_failed, code_io_error, code_disk_full, code_permission_denied,
  code_resolution_detect_failed,
}

-- Slices of bytes: `s[:n]` and `s[n:]`, within bounds.
abbrev pub take : ℕ → List ℕ → List ℕ
take zero s = []
take (suc n) [] = []
take (suc n) (c ∷ s) = c ∷ take n s

abbrev pub drop : ℕ → List ℕ → List ℕ
drop zero s = s
drop (suc n) [] = []
drop (suc n) (c ∷ s) = drop n s

abbrev pub bytes_eq : List ℕ → List ℕ → Bool
bytes_eq [] [] = true
bytes_eq [] (d ∷ t) = false
bytes_eq (c ∷ s) [] = false
bytes_eq (c ∷ s) (d ∷ t) = c == d && bytes_eq s t

unfoldable pub contains : List ℕ → List ℕ → Bool
contains s sub =
    leb (length sub) (length s)
    && (bytes_eq s sub
        || (ltb (length sub) (length s)
            && (bytes_eq (take (length sub) s) sub
                || (bytes_eq (drop (length s - length sub) s) sub
                    || (ltb (length sub + 1) (length s)
                        && bytes_eq (take (length sub) (drop 1 s)) sub)))))

unfoldable pub code_of : List ℕ → String
unfolding contains
code_of s =
    if contains s (codes "resolution")
    then code_resolution_detect_failed
    else if contains s (codes "disk")
    then code_disk_full
    else if contains s (codes "permission")
    then code_permission_denied
    else if contains s (codes "I/O") || contains s (codes "io")
    then code_io_error
    else code_ffmpeg_failed

unfoldable pub extract_error_code : Error → String
unfolding code_of error_text
extract_error_code e = code_of (codes (error_text e))

code_suffix : extract_error_code (message "no space left on disk") ≡ code_disk_full
unfolding extract_error_code
code_suffix = refl

code_inside : extract_error_code (message "write: disk quota exceeded") ≡ code_ffmpeg_failed
unfolding extract_error_code
code_inside = refl
