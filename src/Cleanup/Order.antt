-- ===== src/Cleanup/Order.antt =====
-- The order of a cleanup, and what `sort.Slice` promises of one.
use video_encoder_service.Prelude.{
  Bool, true, false, ◌≡◌, List, [], ◌∷◌, All, ℕ, ltb, ◌==◌, not, if◌then◌else◌, arith,
}
use mathlib.Core.List.{Perm}
use video_encoder_service.Cleanup.Service.{get_cleanup_priority, goes_before}

-- A strict weak order.
pub record IsWeakOrder {A : Type 0} (less : A → A → Bool) : Type 0 where
  pub irrefl : (a : A) → less a a ≡ false
  pub trans : (a b c : A) → less a b ≡ true → less b c ≡ true → less a c ≡ true
  pub apart : (a b c : A) → less a b ≡ false → less b c ≡ false → less a c ≡ false

-- No element is less than one in front of it.
abbrev pub InOrder : {A : Type 0} → (A → A → Bool) → List A → Type 0
InOrder less [] = Unit
InOrder less (x ∷ xs) = All (λ y. less y x ≡ false) xs × InOrder less xs

-- `sort.Slice`: a permutation, and in order where `less` is a strict weak order.
pub record IsSort {A : Type 0} (sort : (A → A → Bool) → List A → List A) : Type 0 where
  pub perm : (less : A → A → Bool) (xs : List A) → Perm (sort less xs) xs
  pub ordered : (less : A → A → Bool) (xs : List A) → IsWeakOrder less → InOrder less (sort less xs)

abbrev ranks : ℕ → ℕ → ℕ → ℕ → Bool
ranks p m q n = if not (p == q) then ltb q p else ltb m n

ranks_trans : (p m q n r o : ℕ) → ranks p m q n ≡ true → ranks q n r o ≡ true → ranks p m r o ≡ true
ranks_trans p m q n r o h k = ground arith

ranks_apart :
    (p m q n r o : ℕ) → ranks p m q n ≡ false → ranks q n r o ≡ false → ranks p m r o ≡ false
ranks_apart p m q n r o h k = ground arith

pub goes_before-IsWeakOrder :
    (now : ℕ) (is_emergency : Bool) → IsWeakOrder (goes_before now is_emergency)
unfolding goes_before
goes_before-IsWeakOrder now is_emergency =
    let p = get_cleanup_priority now is_emergency in
    record {
      irrefl = λ a. ground arith;
      trans = λ a b c. ranks_trans (p a) a.mod_time (p b) b.mod_time (p c) c.mod_time;
      apart = λ a b c. ranks_apart (p a) a.mod_time (p b) b.mod_time (p c) c.mod_time;
    }
