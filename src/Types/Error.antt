-- ===== src/Types/Error.antt =====
-- Go's `error` values, the outcome of a call, and stateful calls that may fail
-- (internal/core/domain/errors.go and the PartialSuccessError of
-- internal/infrastructure/ffmpeg/encoder.go).
use video_encoder_service.Prelude.{ℕ, String, List, [], ◌∷◌, str_append, decimal, ◌⊎◌, inl, inr}

-- The elements of a `[]string` under `%v`, without the brackets.
words_of : List String → String
words_of [] = ""
words_of (w ∷ []) = w
words_of (w ∷ v ∷ ws) = str_append w (str_append " " (words_of (v ∷ ws)))

-- `%v` of a `[]string`.
unfoldable pub list_text : List String → String
unfolding words_of
list_text ws = str_append "[" (str_append (words_of ws) "]")

-- An error is told apart by its dynamic type alone: a `*PartialSuccessError`, or one that only has
-- a message.
pub data Error : Type 0 where
  message : String → Error
  partial_success : (failed_qualities : List String) (success_count total_count : ℕ) → Error

-- The method Error.
unfoldable pub error_text : Error → String
unfolding list_text decimal
error_text (message m) = m
error_text (partial_success failed n total) = str_append "partial success: " (
    str_append (decimal n) (
      str_append "/" (
        str_append (decimal total)
          (str_append " qualities encoded successfully, failed: " (list_text failed)))))

-- `errors.New`, and `fmt.Errorf("text: %w", err)`.
unfoldable pub new_error : String → Error
new_error s = message s

unfoldable pub wrap : String → Error → Error
wrap prefix e = message (str_append prefix (error_text e))

-- What a call comes to: a value, an error, or a panic.
pub data Result {ℓ} (A : Type ℓ) : Type ℓ where
  ok : A → Result A
  err : Error → Result A
  panic : Result A

-- Stateful calls: what they did to the state stays done when they fail.
abbrev pub M : Type 0 → Type 0 → Type 0
M S A = S → Result A × S

abbrev pub next : {S A B : Type 0} → (A → M S B) → Result A × S → Result B × S
next f (ok a, s) = f a s
next f (err e, s) = (err e, s)
next f (panic, s) = (panic, s)

infixl 5 ◌>>=◌ ◌>>◌
-- `a, err := m; if err != nil { return err }` and then the rest.
unfoldable pub ◌>>=◌ : {S A B : Type 0} → M S A → (A → M S B) → M S B
◌>>=◌ m f s = next f (m s)

abbrev pub ◌>>◌ : {S B : Type 0} → M S (Unit {0}) → M S B → M S B
m >> k = m >>= λ _. k

unfoldable pub pure : {S A : Type 0} → A → M S A
pure a s = (ok a, s)

unfoldable pub fail : {S A : Type 0} → Error → M S A
fail e s = (err e, s)

-- A call whose error is dropped.
abbrev pub drop_error : {S A : Type 0} → Result A × S → Result (Unit {0}) × S
drop_error (ok a, s) = (ok tt, s)
drop_error (err e, s) = (ok tt, s)
drop_error (panic, s) = (panic, s)

unfoldable pub ignore : {S A : Type 0} → M S A → M S (Unit {0})
ignore m s = drop_error (m s)

-- `if err := m; err != nil { return fmt.Errorf("text: %w", err) }`
abbrev pub wrapped : {S A : Type 0} → String → Result A × S → Result A × S
wrapped prefix (ok a, s) = (ok a, s)
wrapped prefix (err e, s) = (err (wrap prefix e), s)
wrapped prefix (panic, s) = (panic, s)

unfoldable pub wrapping : {S A : Type 0} → String → M S A → M S A
wrapping prefix m s = wrapped prefix (m s)

-- The outcome of a call as a value: `a, err := m`, for code that goes on either way.
abbrev pub outcome : {S A : Type 0} → Result A × S → Result (Error ⊎ A) × S
outcome (ok a, s) = (ok (inr a), s)
outcome (err e, s) = (ok (inl e), s)
outcome (panic, s) = (panic, s)

unfoldable pub try : {S A : Type 0} → M S A → M S (Error ⊎ A)
try m s = outcome (m s)

-- A field of the state.
unfoldable pub reads : {S A : Type 0} → (S → A) → M S A
reads f s = (ok (f s), s)
