-- ===== src/Transcode/Keeps.antt =====
-- Invariants of stateful calls, one rule for each way in which the use case builds a call. A call
-- keeps `P` if it keeps it whatever it returns, and does not panic where `P` holds.
use video_encoder_service.Prelude.{◌⊎◌, inl, inr, String, Bool, true, false, if◌then◌else◌}
use video_encoder_service.Types.Error.{
  Error, Result, ok, err, panic, M, next, ◌>>=◌, pure, fail, ignore, drop_error, wrapped, wrapping,
  try, outcome, reads,
}
use video_encoder_service.Transcode.World.{World}

abbrev pub IsCalm : {A : Type 0} → Result A → Type 0
IsCalm (ok a) = Unit
IsCalm (err e) = Unit
IsCalm panic = ⊥

pub record Keeps {A : Type 0} (P : World → Type 0) (m : M World A) : Type 0 where
  pub at : (w : World) → P w → P (m w).1 × IsCalm (m w).0

next-Keeps :
    (P : World → Type 0) {A B : Type 0} (f : A → M World B) (r : Result A) (w : World)
    → ((a : A) → Keeps P (f a))
    → P w
    → IsCalm r
    → P (next f (r, w)).1 × IsCalm (next f (r, w)).0
next-Keeps P f (ok a) w kf h c = (kf a).at w h
next-Keeps P f (err e) w kf h c = (h, tt)
next-Keeps P f panic w kf h c = absurd c

drop-Keeps :
    (P : World → Type 0) {A : Type 0} (r : Result A) (w : World)
    → P w
    → IsCalm r
    → P (drop_error (r, w)).1 × IsCalm (drop_error (r, w)).0
drop-Keeps P (ok a) w h c = (h, tt)
drop-Keeps P (err e) w h c = (h, tt)
drop-Keeps P panic w h c = absurd c

wrapped-Keeps :
    (P : World → Type 0) {A : Type 0} (prefix : String) (r : Result A) (w : World)
    → P w
    → IsCalm r
    → P (wrapped prefix (r, w)).1 × IsCalm (wrapped prefix (r, w)).0
wrapped-Keeps P prefix (ok a) w h c = (h, tt)
wrapped-Keeps P prefix (err e) w h c = (h, tt)
wrapped-Keeps P prefix panic w h c = absurd c

outcome-Keeps :
    (P : World → Type 0) {A : Type 0} (r : Result A) (w : World)
    → P w
    → IsCalm r
    → P (outcome (r, w)).1 × IsCalm (outcome (r, w)).0
outcome-Keeps P (ok a) w h c = (h, tt)
outcome-Keeps P (err e) w h c = (h, tt)
outcome-Keeps P panic w h c = absurd c

module _ {P : World → Type 0} where
  pub Keeps-pure : {A : Type 0} (a : A) → Keeps P (pure a)
  unfolding pure
  Keeps-pure a = record { at = λ w h. (h, tt) }

  pub Keeps-fail : {A : Type 0} (e : Error) → Keeps P (fail {A = A} e)
  unfolding fail
  Keeps-fail e = record { at = λ w h. (h, tt) }

  pub Keeps-reads : {A : Type 0} (f : World → A) → Keeps P (reads f)
  unfolding reads
  Keeps-reads f = record { at = λ w h. (h, tt) }

  pub Keeps-bind :
      {A B : Type 0} (m : M World A) (f : A → M World B)
      → Keeps P m
      → ((a : A) → Keeps P (f a))
      → Keeps P (m >>= f)
  unfolding ◌>>=◌
  Keeps-bind m f km kf = record {
    at = λ w h. let (h', c) = km.at w h in next-Keeps P f (m w).0 (m w).1 kf h' c;
  }

  pub Keeps-ignore : {A : Type 0} (m : M World A) → Keeps P m → Keeps P (ignore m)
  unfolding ignore
  Keeps-ignore m km = record {
    at = λ w h. let (h', c) = km.at w h in drop-Keeps P (m w).0 (m w).1 h' c;
  }

  pub Keeps-try : {A : Type 0} (m : M World A) → Keeps P m → Keeps P (try m)
  unfolding try
  Keeps-try m km = record {
    at = λ w h. let (h', c) = km.at w h in outcome-Keeps P (m w).0 (m w).1 h' c;
  }

  pub Keeps-wrapping :
      {A : Type 0} (prefix : String) (m : M World A) → Keeps P m → Keeps P (wrapping prefix m)
  unfolding wrapping
  Keeps-wrapping prefix m km = record {
    at = λ w h. let (h', c) = km.at w h in wrapped-Keeps P prefix (m w).0 (m w).1 h' c;
  }

  pub Keeps-if :
      {A : Type 0} (b : Bool) (m n : M World A)
      → Keeps P m
      → Keeps P n
      → Keeps P (if b then m else n)
  Keeps-if true m n km kn = km
  Keeps-if false m n km kn = kn

  -- A call that ends in the value of a test.
  pub Keeps-elim :
      {A B : Type 0} (r : Error ⊎ A) (f : A → M World B) (g : Error → M World B)
      → ((a : A) → Keeps P (f a))
      → ((e : Error) → Keeps P (g e))
      → Keeps P (elim r [ inr a ↦ f a | inl e ↦ g e ])
  Keeps-elim (inl e) f g kf kg = kg e
  Keeps-elim (inr a) f g kf kg = kf a

pub ruleset keeps_rules = (
  Keeps-pure, Keeps-fail, Keeps-reads, Keeps-bind, Keeps-ignore, Keeps-try, Keeps-wrapping,
  Keeps-if,
)
