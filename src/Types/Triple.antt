-- ===== src/Types/Triple.antt =====
-- Stateful calls with a condition before, a condition after that reads the value returned, and one
-- for when they return an error; they do not panic.
use video_encoder_service.Prelude.{String, ◌⊎◌, inl, inr, Bool, true, false, if◌then◌else◌}
use video_encoder_service.Types.Error.{
  Error, Result, ok, err, panic, M, next, ◌>>=◌, pure, fail, wrapped, wrapping, ignore, drop_error,
  try, outcome, reads,
}

abbrev pub Post : {S A : Type 0} → (S → Type 0) → (A → S → Type 0) → Result A × S → Type 0
Post I Q (ok a, s) = Q a s
Post I Q (err e, s) = I s
Post I Q (panic, s) = ⊥

pub record Ensures {S A : Type 0} (I P : S → Type 0) (Q : A → S → Type 0) (m : M S A) : Type 0 where
  pub at : (s : S) → P s → Post I Q (m s)

pub Post-weaken :
    {S A : Type 0} {I J : S → Type 0} {Q R : A → S → Type 0} (r : Result A × S)
    → ((s : S) → I s → J s)
    → ((a : A) (s : S) → Q a s → R a s)
    → Post I Q r
    → Post J R r
Post-weaken (ok a, s) f g h = g a s h
Post-weaken (err e, s) f g h = f s h
Post-weaken (panic, s) f g h = h

pub next-Post :
    {S A B : Type 0} {I : S → Type 0} {Q : A → S → Type 0} {R : B → S → Type 0} (f : A → M S B)
    (r : Result A × S)
    → ((a : A) → Ensures I (Q a) R (f a))
    → Post I Q r
    → Post I R (next f r)
next-Post f (ok a, s) ef h = (ef a).at s h
next-Post f (err e, s) ef h = h
next-Post f (panic, s) ef h = h

outcome-Post :
    {S A : Type 0} {I : S → Type 0} (J : S → Type 0) {Q : A → S → Type 0}
    (R : Error ⊎ A → S → Type 0) (r : Result A × S)
    → ((e : Error) (s : S) → I s → R (inl e) s)
    → ((a : A) (s : S) → Q a s → R (inr a) s)
    → Post I Q r
    → Post J R (outcome r)
outcome-Post J R (ok a, s) f g h = g a s h
outcome-Post J R (err e, s) f g h = f e s h
outcome-Post J R (panic, s) f g h = h

drop-Post :
    {S A : Type 0} (I J : S → Type 0) (r : Result A × S)
    → Post I (λ _. I) r
    → Post J (λ _. I) (drop_error r)
drop-Post I J (ok a, s) h = h
drop-Post I J (err e, s) h = h
drop-Post I J (panic, s) h = h

wrapped-Post :
    {S A : Type 0} (I : S → Type 0) (Q : A → S → Type 0) (prefix : String) (r : Result A × S)
    → Post I Q r
    → Post I Q (wrapped prefix r)
wrapped-Post I Q prefix (ok a, s) h = h
wrapped-Post I Q prefix (err e, s) h = h
wrapped-Post I Q prefix (panic, s) h = h

module _ {S : Type 0} {I P : S → Type 0} where
  pub Ensures-pure :
      {A : Type 0} {Q : A → S → Type 0} (a : A) → ((s : S) → P s → Q a s) → Ensures I P Q (pure a)
  unfolding pure
  Ensures-pure a h = record { at = λ s p. h s p }

  pub Ensures-reads :
      {A : Type 0} {Q : A → S → Type 0} (f : S → A)
      → ((s : S) → P s → Q (f s) s)
      → Ensures I P Q (reads f)
  unfolding reads
  Ensures-reads f h = record { at = λ s p. h s p }

  pub Ensures-bind :
      {A B : Type 0} (Q : A → S → Type 0) {R : B → S → Type 0} (m : M S A) (f : A → M S B)
      → Ensures I P Q m
      → ((a : A) → Ensures I (Q a) R (f a))
      → Ensures I P R (m >>= f)
  unfolding ◌>>=◌
  Ensures-bind Q m f em ef = record { at = λ s h. next-Post f (m s) ef (em.at s h) }

  pub Ensures-if :
      {A : Type 0} {Q : A → S → Type 0} (b : Bool) (m n : M S A)
      → Ensures I P Q m
      → Ensures I P Q n
      → Ensures I P Q (if b then m else n)
  Ensures-if true m n em en = em
  Ensures-if false m n em en = en

  pub Ensures-weaken :
      {A : Type 0} {J O : S → Type 0} {Q R : A → S → Type 0} (m : M S A)
      → Ensures I P Q m
      → ((s : S) → I s → J s)
      → ((s : S) → O s → P s)
      → ((a : A) (s : S) → Q a s → R a s)
      → Ensures J O R m
  Ensures-weaken m em f o g = record { at = λ s h. Post-weaken (m s) f g (em.at s (o s h)) }

  pub Ensures-try :
      {A : Type 0} {J : S → Type 0} {Q : A → S → Type 0} {R : Error ⊎ A → S → Type 0} (m : M S A)
      → Ensures I P Q m
      → ((e : Error) (s : S) → I s → R (inl e) s)
      → ((a : A) (s : S) → Q a s → R (inr a) s)
      → Ensures J P R (try m)
  unfolding try
  Ensures-try {J} {R} m em f g = record { at = λ s h. outcome-Post J R (m s) f g (em.at s h) }

  pub Ensures-ignore :
      {A : Type 0} {J : S → Type 0} (m : M S A)
      → Ensures I P (λ _. I) m
      → Ensures J P (λ _. I) (ignore m)
  unfolding ignore
  Ensures-ignore {J} m em = record { at = λ s h. drop-Post I J (m s) (em.at s h) }

  pub Ensures-wrapping :
      {A : Type 0} {Q : A → S → Type 0} (prefix : String) (m : M S A)
      → Ensures I P Q m
      → Ensures I P Q (wrapping prefix m)
  unfolding wrapping
  Ensures-wrapping {Q} prefix m em = record {
    at = λ s h. wrapped-Post I Q prefix (m s) (em.at s h);
  }

  pub Ensures-fail :
      {A : Type 0} {Q : A → S → Type 0} (e : Error) → ((s : S) → P s → I s) → Ensures I P Q (fail e)
  unfolding fail
  Ensures-fail e h = record { at = λ s p. h s p }
