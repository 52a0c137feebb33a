-- ===== src/Validator/Extension.antt =====
-- filepath.Ext against its description: the allowed extensions end the path.
use video_encoder_service.Prelude.{
  ℕ, ◌≡◌, refl, sym, ◌∙◌, ap, ◌↔◌, inl, inr, true, false, not, ◌&&◌, List, [], ◌∷◌, ◌++◌, map,
  arith, Bool-cases, All, subst, ◌==◌, codes, String,
}
use video_encoder_service.Transcode.Errors.{bytes_eq}
use video_encoder_service.Transcode.Codes.{eq_of_bytes}
use video_encoder_service.Validator.Check.{
  dot, lower, separates, ext, allowed_extensions, is_listed,
}

-- The text is one of the extensions, in any case.
abbrev pub IsAllowed : List ℕ → Type 0
IsAllowed e = is_listed (map lower e) allowed_extensions ≡ true

-- The path ends in one of the extensions.
pub record HasExtension (path : List ℕ) : Type 0 where
  pub stem : List ℕ
  pub extension : List ℕ
  pub split : path ≡ stem ++ extension
  pub allowed : IsAllowed extension

-- A dot, and no dot or slash behind it.
abbrev Ends : List ℕ → Type 0
Ends [] = ⊥
Ends (c ∷ s) = (c ≡ dot) × (separates s ≡ false)

separates-lower : (s : List ℕ) → separates (map lower s) ≡ separates s
separates-lower [] = refl
separates-lower (c ∷ s) = ground (arith, separates-lower s)

Ends-of_lower : (s : List ℕ) → Ends (map lower s) → Ends s
Ends-of_lower [] h = h
Ends-of_lower (c ∷ s) h = (ground arith, sym (separates-lower s) ∙ h.1)

Ends-of_listed :
    (s : List ℕ) (es : List String) → All (λ e. Ends (codes e)) es → is_listed s es ≡ true → Ends s
Ends-of_listed s [] ends h = ground arith
Ends-of_listed s (e ∷ es) ends h = elim (Bool-cases (bytes_eq s (codes e))) [
  | inl same ↦ subst Ends (sym (eq_of_bytes s (codes e) same)) ends.0
  | inr other ↦ Ends-of_listed s es ends.1 (rw other at h)
]

separates-append : (s t : List ℕ) → separates t ≡ true → separates (s ++ t) ≡ true
separates-append [] t h = h
separates-append (c ∷ s) t h = ground (arith, separates-append s t h)

ext-append : (s e : List ℕ) → Ends e → ext (s ++ e) ≡ e
ext-append [] [] h = absurd h
ext-append [] (c ∷ e) h = ground arith
ext-append (c ∷ s) [] h = absurd h
ext-append (c ∷ s) (d ∷ e) h = ground (arith, ext-append s (d ∷ e) h, separates-append s (d ∷ e))

ext_suffix : (s : List ℕ) → (stem : List ℕ) × (s ≡ stem ++ ext s)
ext_suffix [] = ([], refl)
ext_suffix (c ∷ s) = elim (Bool-cases (c == dot && not (separates s))) [
  | inl here ↦ ([], rw here refl)
  | inr further ↦ let (stem, h) = ext_suffix s in (c ∷ stem, rw further (ap (λ t. c ∷ t) h))
]

pub ext-HasExtension : (path : List ℕ) → IsAllowed (ext path) ↔ HasExtension path
ext-HasExtension path = (
  λ h.
      let (stem, split) = ext_suffix path in
      record { stem = stem; extension = ext path; split = split; allowed = h },
  λ h.
      let ends = Ends-of_lower h.extension (
        Ends-of_listed (map lower h.extension) allowed_extensions
          ((refl, refl), ((refl, refl), ((refl, refl), ((refl, refl), ((refl, refl), tt)))))
          h.allowed) in
      rw (ap ext h.split ∙ ext-append h.stem h.extension ends) h.allowed,
)
