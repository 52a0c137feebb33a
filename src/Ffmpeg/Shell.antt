-- ===== src/Ffmpeg/Shell.antt =====
-- What the package ffmpeg acts on: the commands that it has run, and the texts that it has written;
-- and the outside world, whose answers are an arbitrary function of the number of calls made so
-- far.
use video_encoder_service.Prelude.{ℕ, suc, String, Bool, List, ◌∷◌, Option, none, some, str_append}
use video_encoder_service.Prelude.Dict
use video_encoder_service.Prelude.Dict.{Dict}
use video_encoder_service.Types.Error.{Error, message, new_error, ok, M, ◌>>=◌, ◌>>◌, pure, fail}

pub record Shell : Type 0 where
  pub tick : ℕ
  -- each a program with its arguments, newest first
  pub runs : List (List String)
  pub texts : Dict String

-- ffprobe's answer for a video, as `fmt.Sscanf` reads it.
pub record Scanned : Type 0 where
  pub width : ℕ
  pub height : ℕ
  pub duration : ℕ

-- What json.Unmarshal finds in ffprobe's report.
pub record Stream : Type 0 where
  pub codec_type : String
  pub codec_name : String
  pub width : ℕ
  pub height : ℕ
  pub bit_rate : String
  pub frame_rate : String
  pub channels : ℕ
  pub sample_rate : String

pub record ProbeData : Type 0 where
  pub streams : List Stream
  pub duration : String
  pub bit_rate : String
  pub size : String

-- internal/infrastructure/ffmpeg/audio_normalizer.go: LoudnessMetrics.
pub record LoudnessMetrics : Type 0 where
  pub input_i : String
  pub input_tp : String
  pub input_lra : String
  pub input_thresh : String
  pub output_i : String
  pub output_tp : String
  pub output_lra : String
  pub output_thresh : String
  pub offset : String

-- An answer of `some text` of `run` and of `file` is an error, and one of `none` of `output`,
-- `stderr` and `glob` too. `cut` is what a file gets of a text that is written to it.
pub record Tools : Type 0 where
  pub run : ℕ → List String → Option String
  pub output : ℕ → List String → Option String
  pub stderr : ℕ → Option String
  pub file : ℕ → String → Option String
  pub cut : ℕ → String → String
  pub glob : ℕ → String → Option ℕ
  pub times_out : ℕ → Bool
  pub scan : String → Option Scanned
  pub seconds : String → Option ℕ
  pub report : String → Option ProbeData
  pub loudness : List ℕ → Option LoudnessMetrics

unfoldable pub query : {A : Type 0} → (ℕ → A) → M Shell A
query answer s = (ok (answer s.tick), record s { tick = suc s.tick })

unfoldable pub record_run : List String → M Shell (Unit {0})
record_run cmd s = (ok tt, record s { runs = cmd ∷ s.runs })

unfoldable pub set_text : String → String → M Shell (Unit {0})
set_text path text s = (ok tt, record s { texts = Dict.insert path text s.texts })

abbrev pub text_of : Option String → String
text_of none = ""
text_of (some text) = text

unfoldable pub add_text : String → String → M Shell (Unit {0})
add_text path text s = (
  ok tt,
  record s {
    texts = Dict.insert path (str_append (text_of (Dict.lookup path s.texts)) text) s.texts;
  },
)

unfoldable pub no_error : Option String → M Shell (Unit {0})
no_error none = pure tt
no_error (some text) = fail (message text)

unfoldable pub given : {A : Type 0} → Error → Option A → M Shell A
given e none = fail e
given e (some a) = pure a

-- What a write leaves in a file: the text, or the part that came before the error.
unfoldable pub left_of : Option String → String → String → String
left_of none text part = text
left_of (some why) text part = part

module _ (t : Tools) where
  -- `cmd.Run()`
  unfoldable pub run_command : List String → M Shell (Unit {0})
  run_command cmd = do record_run cmd; r ← query (λ n. t.run n cmd); no_error r

  -- `cmd.Output()`
  unfoldable pub output_of_command : List String → M Shell String
  output_of_command cmd = do
    record_run cmd
    r ← query (λ n. t.output n cmd)
    given (new_error "exit status 1") r

  -- os.MkdirAll and utils.EnsureDir.
  unfoldable pub make_dir : String → M Shell (Unit {0})
  make_dir path = do r ← query (λ n. t.file n path); no_error r

  -- os.Create
  unfoldable pub create_file : String → M Shell (Unit {0})
  create_file path = do r ← query (λ n. t.file n path); no_error r; set_text path ""

  -- A call of WriteString whose error is dropped.
  unfoldable pub write_string : String → String → M Shell (Unit {0})
  write_string path text = do written ← query (λ n. t.cut n text); add_text path written

  -- os.WriteFile, which empties the file first; on an error, part of the text may be in it.
  unfoldable pub write_file : String → String → M Shell (Unit {0})
  write_file path text = do
    opened ← query (λ n. t.file n path)
    no_error opened
    failed ← query (λ n. t.file n path)
    part ← query (λ n. t.cut n text)
    set_text path (left_of failed text part)
    no_error failed
