-- ===== src/Ffmpeg/Calm.antt =====
-- No call of the package ffmpeg panics.
use video_encoder_service.Prelude.{
  ◌⊎◌, inl, inr, ℕ, String, Bool, true, false, List, Option, none, some,
}
use video_encoder_service.Types.Error.{
  Error, Result, ok, err, panic, M, next, ◌>>=◌, pure, fail, ignore, drop_error, wrapped, wrapping,
  try, outcome,
}
use video_encoder_service.Types.Encoding.{QualityVariant}
use video_encoder_service.Types.Triple.{Post, Ensures}
use video_encoder_service.Transcode.Keeps.{IsCalm}
use video_encoder_service.Ffmpeg.Shell.{
  Shell, Tools, query, record_run, set_text, no_error, given, run_command, output_of_command,
  make_dir, write_file,
}
use video_encoder_service.Ffmpeg.Probe.{has_audio_stream, get_video_info}
use video_encoder_service.Ffmpeg.Quality.{
  write_logs, save_ffmpeg_logs, execute_ffmpeg_encoding, late, watch,
}

pub record Calm {A : Type 0} (m : M Shell A) : Type 0 where
  pub at : (s : Shell) → IsCalm (m s).0

next-Calm :
    {A B : Type 0} (f : A → M Shell B) (r : Result A) (s : Shell)
    → ((a : A) → Calm (f a))
    → IsCalm r
    → IsCalm (next f (r, s)).0
next-Calm f (ok a) s cf c = (cf a).at s
next-Calm f (err e) s cf c = tt
next-Calm f panic s cf c = absurd c

drop-Calm : {A : Type 0} (r : Result A) (s : Shell) → IsCalm r → IsCalm (drop_error (r, s)).0
drop-Calm (ok a) s c = tt
drop-Calm (err e) s c = tt
drop-Calm panic s c = absurd c

wrapped-Calm :
    {A : Type 0} (prefix : String) (r : Result A) (s : Shell)
    → IsCalm r
    → IsCalm (wrapped prefix (r, s)).0
wrapped-Calm prefix (ok a) s c = tt
wrapped-Calm prefix (err e) s c = tt
wrapped-Calm prefix panic s c = absurd c

outcome-Calm : {A : Type 0} (r : Result A) (s : Shell) → IsCalm r → IsCalm (outcome (r, s)).0
outcome-Calm (ok a) s c = tt
outcome-Calm (err e) s c = tt
outcome-Calm panic s c = absurd c

pub Calm-pure : {A : Type 0} (a : A) → Calm (pure a)
unfolding pure
Calm-pure a = record { at = λ s. tt }

pub Calm-fail : {A : Type 0} (e : Error) → Calm (fail {A = A} e)
unfolding fail
Calm-fail e = record { at = λ s. tt }

pub Calm-bind :
    {A B : Type 0} (m : M Shell A) (f : A → M Shell B)
    → Calm m
    → ((a : A) → Calm (f a))
    → Calm (m >>= f)
unfolding ◌>>=◌
Calm-bind m f cm cf = record { at = λ s. next-Calm f (m s).0 (m s).1 cf (cm.at s) }

pub Calm-ignore : {A : Type 0} (m : M Shell A) → Calm m → Calm (ignore m)
unfolding ignore
Calm-ignore m cm = record { at = λ s. drop-Calm (m s).0 (m s).1 (cm.at s) }

pub Calm-wrapping :
    {A : Type 0} (prefix : String) (m : M Shell A) → Calm m → Calm (wrapping prefix m)
unfolding wrapping
Calm-wrapping prefix m cm = record { at = λ s. wrapped-Calm prefix (m s).0 (m s).1 (cm.at s) }

pub Calm-try : {A : Type 0} (m : M Shell A) → Calm m → Calm (try m)
unfolding try
Calm-try m cm = record { at = λ s. outcome-Calm (m s).0 (m s).1 (cm.at s) }

pub Calm-query : {A : Type 0} (f : ℕ → A) → Calm (query f)
unfolding query
Calm-query f = record { at = λ s. tt }

pub Calm-record_run : (cmd : List String) → Calm (record_run cmd)
unfolding record_run
Calm-record_run cmd = record { at = λ s. tt }

pub Calm-set_text : (path text : String) → Calm (set_text path text)
unfolding set_text
Calm-set_text path text = record { at = λ s. tt }

pub Calm-no_error : (o : Option String) → Calm (no_error o)
unfolding no_error
Calm-no_error none = Calm-pure tt
Calm-no_error (some text) = Calm-fail _

pub Calm-given : {A : Type 0} (e : Error) (o : Option A) → Calm (given e o)
unfolding given
Calm-given e none = Calm-fail e
Calm-given e (some a) = Calm-pure a

pub ruleset calm_rules = (
  Calm-pure, Calm-fail, Calm-bind, Calm-ignore, Calm-wrapping, Calm-try, Calm-query,
  Calm-record_run, Calm-set_text, Calm-no_error, Calm-given,
)

module _ (t : Tools) where
  pub Calm-run_command : (cmd : List String) → Calm (run_command t cmd)
  unfolding run_command
  Calm-run_command cmd = search (calm_rules) depth 20

  pub Calm-output_of_command : (cmd : List String) → Calm (output_of_command t cmd)
  unfolding output_of_command
  Calm-output_of_command cmd = search (calm_rules) depth 20

  pub Calm-make_dir : (path : String) → Calm (make_dir t path)
  unfolding make_dir
  Calm-make_dir path = search (calm_rules) depth 20

  pub Calm-write_file : (path text : String) → Calm (write_file t path text)
  unfolding write_file
  Calm-write_file path text = search (calm_rules) depth 20

  Calm-has_audio_stream : (path : String) → Calm (has_audio_stream t path)
  unfolding has_audio_stream
  Calm-has_audio_stream path = search (calm_rules, Calm-output_of_command) depth 20

  pub Calm-get_video_info : (path : String) → Calm (get_video_info t path)
  unfolding get_video_info
  Calm-get_video_info path =
      search (calm_rules, Calm-output_of_command, Calm-has_audio_stream) depth 20

  Calm-write_logs : (path : String) (o : Option String) → Calm (write_logs t path o)
  unfolding write_logs
  Calm-write_logs path none = search (calm_rules)
  Calm-write_logs path (some text) = search (calm_rules, Calm-write_file) depth 20

  pub Calm-save_ffmpeg_logs : (dir path : String) → Calm (save_ffmpeg_logs t dir path)
  unfolding save_ffmpeg_logs
  Calm-save_ffmpeg_logs dir path = search (calm_rules, Calm-make_dir, Calm-write_logs) depth 20

  pub Calm-execute :
      (id input dir : String) (v : QualityVariant) (n : ℕ) (a : Bool) (outputs : String)
      → Calm (execute_ffmpeg_encoding t id input dir v n a outputs)
  unfolding execute_ffmpeg_encoding
  Calm-execute id input dir v n a outputs =
      search (calm_rules, Calm-run_command, Calm-make_dir, Calm-save_ffmpeg_logs) depth 30

  Calm-late : (n : ℕ) (b : Bool) (r : Error ⊎ Unit {0}) → Calm (late t n b r)
  unfolding late
  Calm-late n true r = Calm-fail _
  Calm-late n false (inl e) = Calm-fail e
  Calm-late n false (inr u) = Calm-pure tt

  pub Calm-watch : (n : ℕ) (m : M Shell (Unit {0})) → Calm m → Calm (watch t n m)
  unfolding watch
  Calm-watch n m cm =
      Calm-bind _ _ (Calm-try m cm) λ r. Calm-bind _ _ (Calm-query t.times_out) λ b. Calm-late n b r

post :
    {A : Type 0} (r : Result A) (s : Shell)
    → IsCalm r
    → Post (λ _. Unit {0}) (λ _ _. Unit {0}) (r, s)
post (ok a) s c = tt
post (err e) s c = tt
post panic s c = absurd c

-- A call that does not panic, where nothing else is asked of it.
pub of_Calm :
    {A : Type 0} (m : M Shell A)
    → Calm m
    → Ensures (λ _. Unit {0}) (λ _. Unit {0}) (λ _ _. Unit {0}) m
of_Calm m cm = record { at = λ s h. post (m s).0 (m s).1 (cm.at s) }
