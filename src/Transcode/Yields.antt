-- ===== src/Transcode/Yields.antt =====
-- What holds of the world after a call that returns a value.
use video_encoder_service.Prelude.{Bool, true, false, if◌then◌else◌}
use video_encoder_service.Types.Error.{Error, Result, ok, err, panic, M, next, ◌>>=◌, pure, fail}
use video_encoder_service.Transcode.World.{World}
use video_encoder_service.Transcode.Keeps.{Keeps}

abbrev pub Given : {A : Type 0} → (A → World → Type 0) → Result A × World → Type 0
Given R (ok a, w) = R a w
Given R (err e, w) = Unit
Given R (panic, w) = Unit

pub record Yields {A : Type 0} (P : World → Type 0) (R : A → World → Type 0) (m : M World A)
    : Type 0 where
  pub at : (w : World) → P w → Given R (m w)

next-Yields :
    {A B : Type 0} (P : A → World → Type 0) (R : B → World → Type 0) (f : A → M World B)
    (r : Result A × World)
    → ((a : A) → Yields (P a) R (f a))
    → Given P r
    → Given R (next f r)
next-Yields P R f (ok a, w) kf h = (kf a).at w h
next-Yields P R f (err e, w) kf h = tt
next-Yields P R f (panic, w) kf h = tt

Given-kept : {A : Type 0} (P : World → Type 0) (r : Result A × World) → P r.1 → Given (λ _. P) r
Given-kept P (ok a, w) h = h
Given-kept P (err e, w) h = tt
Given-kept P (panic, w) h = tt

module _ {P : World → Type 0} where
  pub Yields-Keeps : {A : Type 0} (m : M World A) → Keeps P m → Yields P (λ _. P) m
  Yields-Keeps m km = record { at = λ w h. Given-kept P (m w) (km.at w h).0 }

  pub Yields-pure :
      {A : Type 0} {R : A → World → Type 0} (a : A)
      → ((w : World) → P w → R a w)
      → Yields P R (pure a)
  unfolding pure
  Yields-pure a h = record { at = λ w p. h w p }

  pub Yields-fail : {A : Type 0} {R : A → World → Type 0} (e : Error) → Yields P R (fail e)
  unfolding fail
  Yields-fail e = record { at = λ w p. tt }

  pub Yields-bind :
      {A B : Type 0} (Q : A → World → Type 0) {R : B → World → Type 0} (m : M World A)
      (f : A → M World B)
      → Yields P Q m
      → ((a : A) → Yields (Q a) R (f a))
      → Yields P R (m >>= f)
  unfolding ◌>>=◌
  Yields-bind Q {R} m f ym yf = record { at = λ w h. next-Yields Q R f (m w) yf (ym.at w h) }

  -- The first call keeps `P`.
  pub Yields-next :
      {A B : Type 0} {R : B → World → Type 0} (m : M World A) (f : A → M World B)
      → Keeps P m
      → ((a : A) → Yields P R (f a))
      → Yields P R (m >>= f)
  Yields-next m f km yf = Yields-bind (λ _. P) m f (Yields-Keeps m km) yf

  pub Yields-if :
      {A : Type 0} {R : A → World → Type 0} (b : Bool) (m n : M World A)
      → Yields P R m
      → Yields P R n
      → Yields P R (if b then m else n)
  Yields-if true m n ym yn = ym
  Yields-if false m n ym yn = yn
