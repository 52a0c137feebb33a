-- ===== src/Transcode/Codes.antt =====
-- What contains finds, and the codes that extractErrorCode gives.
use video_encoder_service.Prelude.{
  ◌⊎◌, length-append, ◌+◌, ◌<◌, ◌≤◌, inl, inr, ℕ, zero, suc, ◌-◌, ◌≡◌, refl, sym, ◌∙◌, ap, subst,
  String, true, false, List, [], ◌∷◌, ◌++◌, length, leb, arith, Bool-cases, ==_iff, ◌==◌, codes,
}
use video_encoder_service.Types.Error.{Error, error_text}
use video_encoder_service.Types.Retry.{
  code_ffmpeg_failed, code_io_error, code_disk_full, code_permission_denied,
  code_resolution_detect_failed,
}
use video_encoder_service.Transcode.Errors.{
  take, drop, bytes_eq, contains, code_of, extract_error_code,
}

pub eq_of_bytes : (s t : List ℕ) → bytes_eq s t ≡ true → s ≡ t
eq_of_bytes [] [] h = refl
eq_of_bytes [] (d ∷ t) h = ground arith
eq_of_bytes (c ∷ s) [] h = ground arith
eq_of_bytes (c ∷ s) (d ∷ t) h = elim (Bool-cases (c == d)) [
  | inl same ↦ let tails = eq_of_bytes s t (rw same at h) in let heads = (==_iff c d).0 same in cc
  | inr differ ↦ let no : false ≡ true = rw differ at h in ground arith
]

take-drop : (n : ℕ) (s : List ℕ) → take n s ++ drop n s ≡ s
take-drop zero s = refl
take-drop (suc n) [] = refl
take-drop (suc n) (c ∷ s) = ap (λ t. c ∷ t) (take-drop n s)

append_nil : (s : List ℕ) → s ++ [] ≡ s
append_nil [] = refl
append_nil (c ∷ s) = ap (λ t. c ∷ t) (append_nil s)

take_front : (p s : List ℕ) → take (length p) (p ++ s) ≡ p
take_front [] s = refl
take_front (c ∷ p) s = ap (λ t. c ∷ t) (take_front p s)

drop_front : (b s : List ℕ) → drop (length b) (b ++ s) ≡ s
drop_front [] s = refl
drop_front (c ∷ b) s = drop_front b s

bytes_eq_refl : (s : List ℕ) → bytes_eq s s ≡ true
bytes_eq_refl [] = refl
bytes_eq_refl (c ∷ s) = ground (arith, bytes_eq_refl s)

-- Where contains looks for a text: at the front of the string, at its end, and behind its first byte
-- where something follows.
abbrev pub IsSeen : List ℕ → List ℕ → Type 0
IsSeen s sub =
    ((after : List ℕ) × (sub ++ after ≡ s))
    ⊎ (((before : List ℕ) × (before ++ sub ≡ s))
        ⊎ ((c : ℕ) × (d : ℕ) × (after : List ℕ) × (c ∷ (sub ++ d ∷ after) ≡ s)))

front_of :
    (s sub : List ℕ) → bytes_eq (take (length sub) s) sub ≡ true → sub ++ drop (length sub) s ≡ s
front_of s sub h =
    ap (λ t. t ++ drop (length sub) s) (sym (eq_of_bytes (take (length sub) s) sub h))
    ∙ take-drop (length sub) s

length-drop : (n : ℕ) (s : List ℕ) → length (drop n s) ≡ length s - n
length-drop zero s = omega arith
length-drop (suc n) [] = omega arith
length-drop (suc n) (c ∷ s) = omega (arith, length-drop n s)

IsSeen-behind :
    (s sub rest : List ℕ) (c : ℕ) → sub ++ rest ≡ s → 1 ≤ length rest → IsSeen (c ∷ s) sub
IsSeen-behind s sub [] c same long = absurd (omega (arith, long))
IsSeen-behind s sub (d ∷ rest) c same long = inr (inr (c, d, rest, ap (λ t. c ∷ t) same))

IsSeen-second :
    (s sub : List ℕ)
    → length sub + 1 < length s
    → bytes_eq (take (length sub) (drop 1 s)) sub ≡ true
    → IsSeen s sub
IsSeen-second [] sub long h = absurd (omega (arith, long))
IsSeen-second (c ∷ s) sub long h =
    IsSeen-behind s sub (drop (length sub) s) c (front_of s sub h)
      (omega (arith, long, length-drop (length sub) s))

IsSeen-contains : (s sub : List ℕ) → contains s sub ≡ true → IsSeen s sub
unfolding contains
IsSeen-contains s sub h = elim (Bool-cases (leb (length sub) (length s))) [
  | inr longer ↦ let no : false ≡ true = rw longer at h in ground arith
  | inl fits ↦ elim (Bool-cases (bytes_eq s sub)) [
    | inl same ↦ inl ([], append_nil sub ∙ sym (eq_of_bytes s sub same))
    | inr differ ↦ elim (Bool-cases (bytes_eq (take (length sub) s) sub)) [
      | inl first ↦ inl (drop (length sub) s, front_of s sub first)
      | inr later ↦ elim (Bool-cases (bytes_eq (drop (length s - length sub) s) sub)) [
        | inl last ↦ inr (
            inl (
              take (length s - length sub) s,
              ap (λ t. take (length s - length sub) s ++ t)
                    (sym (eq_of_bytes (drop (length s - length sub) s) sub last))
                  ∙ take-drop (length s - length sub) s,
            ))
        | inr inner ↦
            let h' = rw (fits, differ, later, inner) at h in
            IsSeen-second s sub (ground (arith, h')) (ground (arith, h'))
      ]
    ]
  ]
]

contains_self : (sub : List ℕ) → contains sub sub ≡ true
unfolding contains
contains_self sub = ground (arith, bytes_eq_refl sub)

contains_front : (sub after : List ℕ) → contains (sub ++ after) sub ≡ true
unfolding contains
contains_front sub [] = rw (append_nil sub) (contains_self sub)
contains_front sub (d ∷ after) =
    let front : bytes_eq (take (length sub) (sub ++ d ∷ after)) sub ≡ true =
      rw (take_front sub (d ∷ after)) (bytes_eq_refl sub) in
    ground (arith, length-append sub (d ∷ after), front)

contains_back : (before sub : List ℕ) → contains (before ++ sub) sub ≡ true
unfolding contains
contains_back [] sub = contains_self sub
contains_back (c ∷ before) sub =
    let s = c ∷ (before ++ sub) in
    let n : length s - length sub ≡ length (c ∷ before) = omega (arith, length-append before sub) in
    let back : bytes_eq (drop (length s - length sub) s) sub ≡ true =
      rw n (rw (drop_front before sub) (bytes_eq_refl sub)) in
    ground (arith, length-append before sub, back)

contains_second : (c d : ℕ) (sub after : List ℕ) → contains (c ∷ (sub ++ d ∷ after)) sub ≡ true
unfolding contains
contains_second c d sub after =
    let second : bytes_eq (take (length sub) (sub ++ d ∷ after)) sub ≡ true =
      rw (take_front sub (d ∷ after)) (bytes_eq_refl sub) in
    ground (arith, length-append sub (d ∷ after), second)

contains-IsSeen : (s sub : List ℕ) → IsSeen s sub → contains s sub ≡ true
contains-IsSeen s sub (inl (after, same)) =
    subst (λ k. contains k sub ≡ true) same (contains_front sub after)
contains-IsSeen s sub (inr (inl (before, same))) =
    subst (λ k. contains k sub ≡ true) same (contains_back before sub)
contains-IsSeen s sub (inr (inr (c, d, after, same))) =
    subst (λ k. contains k sub ≡ true) same (contains_second c d sub after)

-- The text of the error, and the words that are seen in it.
abbrev pub Sees : Error → String → Type 0
Sees e word = IsSeen (codes (error_text e)) (codes word)

unseen : (s sub : List ℕ) → contains s sub ≡ false → ¬ (IsSeen s sub)
unseen s sub none_there h = let there = contains-IsSeen s sub h in ground (arith, none_there, there)

-- The code of an error by the words in its text, of which the first in this order counts.
abbrev pub IsCoded : Error → String → Type 0
IsCoded e code =
    (Sees e "resolution" × (code ≡ code_resolution_detect_failed))
    ⊎ (¬ (Sees e "resolution")
        × ((Sees e "disk" × (code ≡ code_disk_full))
            ⊎ (¬ (Sees e "disk")
                × ((Sees e "permission" × (code ≡ code_permission_denied))
                    ⊎ (¬ (Sees e "permission")
                        × (((Sees e "I/O" ⊎ Sees e "io") × (code ≡ code_io_error))
                            ⊎ (¬ (Sees e "I/O")
                                × ¬ (Sees e "io")
                                × (code ≡ code_ffmpeg_failed))))))))

-- extractErrorCode gives the code of the first of these words that is seen in the text of an error:
-- "resolution", "disk", "permission", and "I/O" or "io"; without any it gives the code of a failure
-- of ffmpeg. A word is seen at the front of the text, at its end, and behind its first byte where
-- something follows, and nowhere else.
pub extract_error_code-IsCoded : (e : Error) → IsCoded e (extract_error_code e)
unfolding extract_error_code code_of
extract_error_code-IsCoded e =
    let s = codes (error_text e) in
    elim (Bool-cases (contains s (codes "resolution"))) [
      | inl h ↦ rw h (inl (IsSeen-contains s _ h, refl))
      | inr n₁ ↦ rw n₁ (
          inr (
            unseen s _ n₁,
            elim (Bool-cases (contains s (codes "disk"))) [
              | inl h ↦ rw h (inl (IsSeen-contains s _ h, refl))
              | inr n₂ ↦ rw n₂ (
                  inr (
                    unseen s _ n₂,
                    elim (Bool-cases (contains s (codes "permission"))) [
                      | inl h ↦ rw h (inl (IsSeen-contains s _ h, refl))
                      | inr n₃ ↦ rw n₃ (
                          inr (
                            unseen s _ n₃,
                            elim (Bool-cases (contains s (codes "I/O"))) [
                              | inl h ↦ rw h (inl (inl (IsSeen-contains s _ h), refl))
                              | inr n₄ ↦ rw n₄ (elim (Bool-cases (contains s (codes "io"))) [
                                | inl h ↦ rw h (inl (inr (IsSeen-contains s _ h), refl))
                                | inr n₅ ↦ rw n₅ (inr (unseen s _ n₄, unseen s _ n₅, refl))
                              ])
                            ],
                          ))
                    ],
                  ))
            ],
          ))
    ]
