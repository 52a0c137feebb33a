-- ===== src/Transcode/Selection.antt =====
-- Which qualities of a video are encoded.
use video_encoder_service.Prelude.{ℕ, ◌≡◌, ◌≤◌, ◌<◌, List, [], ◌∷◌, ◌++◌, All}
use video_encoder_service.Types.Encoding.{QualityVariant}

abbrev pub lowest : List QualityVariant → List QualityVariant
lowest [] = []
lowest (v ∷ vs) = v ∷ []

-- The heights do not fall, from `n` on.
abbrev Climbs : ℕ → List QualityVariant → Type 0
Climbs n [] = Unit
Climbs n (v ∷ vs) = (n ≤ v.height) × Climbs v.height vs

-- The list is `low`, whose heights are `h` at most, and a rest of greater heights.
abbrev pub Parts : ℕ → List QualityVariant → List QualityVariant → Type 0
Parts h vs low =
    (rest : List QualityVariant) × (vs ≡ low ++ rest)
    × All (λ v. v.height ≤ h) low
    × All (λ v. h < v.height) rest
