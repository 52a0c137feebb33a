-- ===== src/Metrics/Peaks.antt =====
-- The peak of the memory in the metrics of a job, over any calls of the service.
use video_encoder_service.Prelude.{
  inl, inr, ℕ, suc, ◌≡◌, refl, sym, ap, ◌∙◌, String, false, List, [], ◌∷◌, Option, none, some,
  str_eq, str_eq_iff, str_eq_refl, ltb, if◌then◌else◌, Bool-cases, Option-cases, subst,
}
use video_encoder_service.Prelude.Dict
use video_encoder_service.Prelude.Dict.{Dict}
use video_encoder_service.Types.Error.{◌>>=◌, pure, fail, wrapping, reads}
use video_encoder_service.Metrics.Service.{
  JobMetrics, WorkerMetrics, Sample, Metrics, Host, inquire, put_metrics, put_job_file,
  put_worker_file, answered, started, sampled, update_found, with_output_size, ended, read_outcome,
  start_job_metrics, update_job_metrics, save_metrics, end_found, end_job_metrics, load_found,
  load_metrics, or_loaded, get_job_metrics, save_worker_metrics,
}

pub data Call : Type 0 where
  starts : (id input_path : String) → Call
  updates : (id : String) (sample : Sample) → Call
  ends : (id status : String) (qualities chunks : ℕ) → Call
  asks : (id : String) → Call
  saves : (id : String) (metrics : WorkerMetrics) → Call

pub invoke : Host → Call → Metrics → Metrics
invoke h (starts id path) s = (start_job_metrics h id path s).1
invoke h (updates id x) s = (update_job_metrics h id x s).1
invoke h (ends id status qualities chunks) s = (end_job_metrics h id status qualities chunks s).1
invoke h (asks id) s = (get_job_metrics h id s).1
invoke h (saves id m) s = (save_worker_metrics h id m s).1

unfoldable pub invoke_all : Host → List Call → Metrics → Metrics
invoke_all h [] s = s
invoke_all h (c ∷ cs) s = invoke_all h cs (invoke h c s)

-- The memory in the samples of a job since its metrics were started last, the last sample first.
abbrev pub sampled_since : String → Call → Option (List ℕ) → Option (List ℕ)
sampled_since id (starts j path) l = if str_eq j id then some [] else l
sampled_since id (updates j x) none = none
sampled_since id (updates j x) (some l) = if str_eq j id then some (x.alloc ∷ l) else some l
sampled_since id (ends j status qualities chunks) l = l
sampled_since id (asks j) l = l
sampled_since id (saves j m) l = l

unfoldable pub history : String → List Call → Option (List ℕ) → Option (List ℕ)
history id [] l = l
history id (c ∷ cs) l = history id cs (sampled_since id c l)

abbrev pub highest : List ℕ → ℕ
highest [] = 0
highest (n ∷ ns) = let rest = highest ns in if ltb rest n then n else rest

-- The metrics of a job are there where its samples are, and their peak is the highest of these.
abbrev pub Peaks : Option JobMetrics → Option (List ℕ) → Type 0
Peaks none none = Unit
Peaks (some m) (some l) = m.peak_memory ≡ highest l
Peaks none (some l) = ⊥
Peaks (some m) none = ⊥

abbrev PeaksAt : String → Metrics → Option (List ℕ) → Type 0
PeaksAt id s l = Peaks (Dict.lookup id s.job_metrics) l

start-Peaks :
    (h : Host) (id j path : String) (s : Metrics) (l : Option (List ℕ))
    → PeaksAt id s l
    → PeaksAt id (start_job_metrics h j path s).1 (if str_eq j id then some [] else l)
unfolding start_job_metrics inquire put_metrics started ◌>>=◌
start-Peaks h id j path s l p =
    rw
      (Dict.lookup-insert j id (started j (h.now (suc s.tick)) (h.file_size s.tick path))
        s.job_metrics)
      (elim (Bool-cases (str_eq j id)) [ inl same ↦ rw same refl | inr other ↦ rw other p ])

sampled_other :
    (id j : String) (x : Sample) (l : Option (List ℕ))
    → str_eq j id ≡ false
    → sampled_since id (updates j x) l ≡ l
sampled_other id j x none other = refl
sampled_other id j x (some l) other = rw other refl

-- Metrics of another job are put.
insert_other :
    (id j : String) (m : JobMetrics) (d : Dict JobMetrics) (l : Option (List ℕ))
    → str_eq j id ≡ false
    → Peaks (Dict.lookup id d) l
    → Peaks (Dict.lookup id (Dict.insert j m d)) l
insert_other id j m d l other p = rw (Dict.lookup-insert j id m d) (rw other p)

update_other :
    (h : Host) (id j : String) (x : Sample) (s : Metrics) (l : Option (List ℕ))
    → str_eq j id ≡ false
    → PeaksAt id s l
    → PeaksAt id (update_job_metrics h j x s).1 l
unfolding update_job_metrics reads update_found put_metrics pure ◌>>=◌
update_other h id j x s l other p = elim (Option-cases (Dict.lookup j s.job_metrics)) [
  | inl missing ↦ rw missing p
  | inr (m, found) ↦ rw found (insert_other id j (sampled x m) s.job_metrics l other p)
]

update_self :
    (h : Host) (id : String) (x : Sample) (s : Metrics) (o : Option JobMetrics)
    (l : Option (List ℕ))
    → Dict.lookup id s.job_metrics ≡ o
    → Peaks o l
    → PeaksAt id (update_job_metrics h id x s).1 (sampled_since id (updates id x) l)
unfolding update_job_metrics reads update_found put_metrics sampled pure ◌>>=◌
update_self h id x s none none e p = rw e (rw e tt)
update_self h id x s (some m) (some l) e p = rw e (
    rw (Dict.lookup-insert_self id (sampled x m) s.job_metrics)
      (rw (str_eq_refl id) (ap (λ (k : ℕ). if ltb k x.alloc then x.alloc else k) p)))
update_self h id x s none (some l) e p = absurd p
update_self h id x s (some m) none e p = absurd p

update-Peaks :
    (h : Host) (id j : String) (x : Sample) (s : Metrics) (l : Option (List ℕ))
    → PeaksAt id s l
    → PeaksAt id (update_job_metrics h j x s).1 (sampled_since id (updates j x) l)
update-Peaks h id j x s l p = elim (Bool-cases (str_eq j id)) [
  | inl same ↦
      subst (λ k. PeaksAt id (update_job_metrics h k x s).1 (sampled_since id (updates k x) l))
        (sym ((str_eq_iff j id).0 same)) (update_self h id x s _ l refl p)
  | inr other ↦ rw (sampled_other id j x l other) (update_other h id j x s l other p)
]

save_keeps :
    (h : Host) (j : String) (m : JobMetrics) (s : Metrics)
    → (save_metrics h j m s).1.job_metrics ≡ s.job_metrics
unfolding save_metrics inquire answered put_job_file wrapping pure fail ◌>>=◌
save_keeps h j m s = elim (Option-cases (h.write s.tick)) [
  | inl fine ↦ rw fine refl
  | inr (text, broken) ↦ rw broken refl
]

ended_peak :
    (now : ℕ) (status : String) (a b : ℕ) (size : Option ℕ) (m : JobMetrics)
    → (ended now status a b size m).peak_memory ≡ m.peak_memory
unfolding ended with_output_size
ended_peak now status a b none m = refl
ended_peak now status a b (some size) m = refl

same_peak :
    (m m' : JobMetrics) (l : Option (List ℕ))
    → m'.peak_memory ≡ m.peak_memory
    → Peaks (some m) l
    → Peaks (some m') l
same_peak m m' none e p = absurd p
same_peak m m' (some l) e p = e ∙ p

insert_same :
    (id j : String) (m m' : JobMetrics) (d : Dict JobMetrics) (l : Option (List ℕ))
    → Dict.lookup j d ≡ some m
    → m'.peak_memory ≡ m.peak_memory
    → Peaks (Dict.lookup id d) l
    → Peaks (Dict.lookup id (Dict.insert j m' d)) l
insert_same id j m m' d l found e p =
    rw (Dict.lookup-insert j id m' d) (elim (Bool-cases (str_eq j id)) [
      | inl same ↦
          let at : Dict.lookup id d ≡ some m =
            subst (λ k. Dict.lookup k d ≡ some m) ((str_eq_iff j id).0 same) found in
          rw same (same_peak m m' l e (rw at at p))
      | inr other ↦ rw other p
    ])

ends-Peaks :
    (h : Host) (id j status : String) (a b : ℕ) (s : Metrics) (l : Option (List ℕ))
    → PeaksAt id s l
    → PeaksAt id (end_job_metrics h j status a b s).1 l
unfolding end_job_metrics reads end_found inquire put_metrics fail ◌>>=◌
ends-Peaks h id j status a b s l p = elim (Option-cases (Dict.lookup j s.job_metrics)) [
  | inl missing ↦ rw missing p
  | inr (m, found) ↦
      let m' = ended (h.now s.tick) status a b (h.dir_size (suc s.tick) j) m in
      rw found (
        rw (save_keeps h j m' _)
          (insert_same id j m m' s.job_metrics l found (ended_peak _ status a b _ m) p))
]

load_keeps :
    (h : Host) (j : String) (o : Option JobMetrics) (s : Metrics)
    → (load_found h j o s).1.job_metrics ≡ s.job_metrics
unfolding load_found inquire read_outcome pure fail ◌>>=◌
load_keeps h j none s = refl
load_keeps h j (some m) s = elim (Option-cases (h.read s.tick)) [
  | inl fine ↦ rw fine refl
  | inr (text, broken) ↦ rw broken refl
]

asks_keeps :
    (h : Host) (j : String) (s : Metrics) → (get_job_metrics h j s).1.job_metrics ≡ s.job_metrics
unfolding get_job_metrics reads or_loaded load_metrics pure ◌>>=◌
asks_keeps h j s = elim (Option-cases (Dict.lookup j s.job_metrics)) [
  | inl missing ↦ rw missing (load_keeps h j (Dict.lookup j s.job_files) s)
  | inr (m, found) ↦ rw found refl
]

saves_keeps :
    (h : Host) (j : String) (m : WorkerMetrics) (s : Metrics)
    → (save_worker_metrics h j m s).1.job_metrics ≡ s.job_metrics
unfolding save_worker_metrics inquire answered put_worker_file wrapping pure fail ◌>>=◌
saves_keeps h j m s = elim (Option-cases (h.write s.tick)) [
  | inl fine ↦ rw fine refl
  | inr (text, broken) ↦ rw broken refl
]

invoke-Peaks :
    (h : Host) (id : String) (c : Call) (s : Metrics) (l : Option (List ℕ))
    → PeaksAt id s l
    → PeaksAt id (invoke h c s) (sampled_since id c l)
unfolding invoke
invoke-Peaks h id (starts j path) s l p = start-Peaks h id j path s l p
invoke-Peaks h id (updates j x) s l p = update-Peaks h id j x s l p
invoke-Peaks h id (ends j status a b) s l p = ends-Peaks h id j status a b s l p
invoke-Peaks h id (asks j) s l p = rw (asks_keeps h j s) p
invoke-Peaks h id (saves j m) s l p = rw (saves_keeps h j m s) p

-- After any calls of the service, those that fail among them, a job has metrics in memory exactly
-- where it had them before or StartJobMetrics was called for it, and their peak of the memory is the
-- highest of the samples that UpdateJobMetrics took for the job since its last start, or 0.
pub invoke_all-Peaks :
    (h : Host) (id : String) (cs : List Call) (s : Metrics) (l : Option (List ℕ))
    → Peaks (Dict.lookup id s.job_metrics) l
    → Peaks (Dict.lookup id (invoke_all h cs s).job_metrics) (history id cs l)
unfolding invoke_all history
invoke_all-Peaks h id [] s l p = p
invoke_all-Peaks h id (c ∷ cs) s l p =
    invoke_all-Peaks h id cs (invoke h c s) (sampled_since id c l) (invoke-Peaks h id c s l p)
