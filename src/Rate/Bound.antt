-- ===== src/Rate/Bound.antt =====
-- How many requests of one visitor are allowed.
use video_encoder_service.Prelude.Dict
use video_encoder_service.Prelude.Dict.{Dict}
use video_encoder_service.Prelude.{
  String, str_eq, str_eq_iff, if◌then◌else◌, some, ◌≡◌, ap, ◌∙◌, ltb→lt, Bool-cases, inl, inr, ℕ,
  ◌+◌, ◌-◌, ◌*◌, ◌≤◌, ◌≡◌, refl, Bool, true, false, List, [], ◌∷◌, ltb, arith, none,
}
use native.Mathlib.Nat.{add-mul}
use video_encoder_service.Rate.Limiter.{
  Visitor, visitor_or_new, refill, take_token, serve, allow, RateLimiter,
}

unfoldable pub total : List (String × ℕ) → ℕ
total [] = 0
total ((who, gap) ∷ es) = gap + total es

-- A request that is allowed takes a token.
abbrev pub allowed_count : Bool → ℕ
allowed_count true = 1
allowed_count false = 0

-- A minute, in nanoseconds.
abbrev pub minute : ℕ
minute = 60 * 1_000_000_000

take_token-tokens :
    (v : Visitor)
    → (allowed_count (take_token v).0 + (take_token v).1.tokens ≡ v.tokens)
      × ((take_token v).1.last_seen ≡ v.last_seen)
unfolding take_token
take_token-tokens v = elim (Bool-cases (ltb 0 v.tokens)) [
  | inl some_left ↦
      rw some_left (let more = ltb→lt 0 v.tokens some_left in omega (arith, more), refl)
  | inr none_left ↦ rw none_left (omega arith, refl)
]

-- Requests of any visitors, each so many nanoseconds after the one before: how many of those of one
-- visitor are allowed.
unfoldable pub allowed_of : (ℕ → ℕ) → String → List (String × ℕ) → ℕ → RateLimiter → ℕ
allowed_of to_add ip [] now rl = 0
allowed_of to_add ip ((who, gap) ∷ es) now rl =
    let (allowed, rl') = allow to_add who (now + gap) (now + gap) rl in
    let n = allowed_of to_add ip es (now + gap) rl' in
    (if str_eq who ip then allowed_count allowed else 0) + n

module _ (to_add : ℕ → ℕ) (burst : ℕ) where
  module _ (rate : ℕ) (law : (e : ℕ) → to_add e * minute ≤ e * rate) where
    refill-paid :
        (now : ℕ) (v : Visitor)
        → v.last_seen ≤ now
        → ((refill burst (to_add (now - v.last_seen)) now v).tokens * minute + v.last_seen * rate
            ≤ v.tokens * minute
              + (refill burst (to_add (now - v.last_seen)) now v).last_seen * rate)
          × ((refill burst (to_add (now - v.last_seen)) now v).last_seen ≤ now)
    unfolding refill
    refill-paid now v h =
        let gap : ℕ = now - v.last_seen in
        let earned : to_add gap * minute ≤ gap * rate = law gap in
        let split : now * rate ≡ v.last_seen * rate + gap * rate =
          ap (λ x. x * rate) (omega arith) ∙ add-mul v.last_seen gap rate in
        elim (Bool-cases (ltb 0 (to_add gap))) [
          | inr none_earned ↦ rw none_earned (omega arith, h)
          | inl some_earned ↦
              rw some_earned (elim (Bool-cases (ltb burst (v.tokens + to_add gap))) [
                | inl over ↦
                    rw over (let less = ltb→lt _ _ over in omega (arith, less), omega arith)
                | inr under ↦ rw under (omega arith, omega arith)
              ])
        ]

    -- A request is paid for by a token, and a token by the time that its visitor was seen.
    serve-paid :
        (now : ℕ) (v : Visitor)
        → v.last_seen ≤ now
        → ((allowed_count (serve to_add burst now v).0 + (serve to_add burst now v).1.tokens)
                * minute
              + v.last_seen * rate
            ≤ v.tokens * minute + (serve to_add burst now v).1.last_seen * rate)
          × ((serve to_add burst now v).1.last_seen ≤ now)
    unfolding serve
    serve-paid now v h =
        let v1 = refill burst (to_add (now - v.last_seen)) now v in
        let (taken, seen) = take_token-tokens v1 in
        let (paid, le) = refill-paid now v h in rw (taken, seen) (paid, le)

module _ (to_add : ℕ → ℕ) (rate : ℕ) (law : (e : ℕ) → to_add e * minute ≤ e * rate)
    (ip : String) where
  abbrev next_limiter : ℕ → String → Visitor → RateLimiter → RateLimiter
  next_limiter at who v rl = record rl {
    visitors = Dict.insert who (serve to_add rl.burst at v).1 rl.visitors;
  }

  -- What a visitor that is known is allowed from here on.
  known-paid :
      (es : List (String × ℕ)) (now : ℕ) (rl : RateLimiter) (v : Visitor)
      → Dict.lookup ip rl.visitors ≡ some v
      → v.last_seen ≤ now
      → allowed_of to_add ip es now rl * minute + v.last_seen * rate
        ≤ v.tokens * minute + (now + total es) * rate
  unfolding allowed_of total allow
  known-paid [] now rl v look h =
      let split : (now + 0) * rate ≡ v.last_seen * rate + (now - v.last_seen) * rate =
        ap (λ x. x * rate) (omega arith) ∙ add-mul v.last_seen (now - v.last_seen) rate in
      omega arith
  known-paid ((who, gap) ∷ es) now rl v look h =
      let at = now + gap in
      let same : (now + (gap + total es)) * rate ≡ (at + total es) * rate =
        ap (λ x. x * rate) (omega arith) in
      elim (Bool-cases (str_eq who ip)) [
        | inr other ↦
            let rl' = (allow to_add who at at rl).1 in
            let kept : Dict.lookup ip rl'.visitors ≡ some v =
              rw (Dict.lookup-insert who ip _ rl.visitors, other) look in
            let rest = known-paid es at rl' v kept (omega arith) in
            rw other (omega (arith, rest, same))
        | inl own ↦
            let here : who ≡ ip = (str_eq_iff who ip).0 own in
            let seen : Dict.lookup who rl.visitors ≡ some v =
              ap (λ x. Dict.lookup x rl.visitors) here ∙ look in
            let v' = (serve to_add rl.burst at v).1 in
            let kept : Dict.lookup ip (next_limiter at who v rl).visitors ≡ some v' =
              rw (Dict.lookup-insert who ip v' rl.visitors, own) refl in
            let (paid, le) = serve-paid to_add rl.burst rate law at v (omega arith) in
            let rest = known-paid es at (next_limiter at who v rl) v' kept le in
            rw (own, seen) (omega (arith, paid, rest, same))
      ]

  -- Among any requests, of visitors of all kinds, those of a visitor that the limiter does not know
  -- at the start are allowed no more often than the burst and what the rate, per minute, earns in
  -- the time of the requests. The refill never earns more than the rate, and no visitor is cleaned
  -- up meanwhile.
  pub allowed_of-bound :
      (es : List (String × ℕ)) (now : ℕ) (rl : RateLimiter)
      → Dict.lookup ip rl.visitors ≡ none
      → allowed_of to_add ip es now rl * minute ≤ rl.burst * minute + total es * rate
  unfolding allowed_of total allow
  allowed_of-bound [] now rl look = omega arith
  allowed_of-bound ((who, gap) ∷ es) now rl look =
      let at = now + gap in
      let more : (gap + total es) * rate ≡ gap * rate + total es * rate =
        add-mul gap (total es) rate in
      elim (Bool-cases (str_eq who ip)) [
        | inr other ↦
            let rl' = (allow to_add who at at rl).1 in
            let kept : Dict.lookup ip rl'.visitors ≡ none =
              rw (Dict.lookup-insert who ip _ rl.visitors, other) look in
            let rest = allowed_of-bound es at rl' kept in rw other (omega (arith, rest, more))
        | inl own ↦
            let here : who ≡ ip = (str_eq_iff who ip).0 own in
            let seen : Dict.lookup who rl.visitors ≡ none =
              ap (λ x. Dict.lookup x rl.visitors) here ∙ look in
            let v = visitor_or_new rl.burst at none in
            let v' = (serve to_add rl.burst at v).1 in
            let kept : Dict.lookup ip (next_limiter at who v rl).visitors ≡ some v' =
              rw (Dict.lookup-insert who ip v' rl.visitors, own) refl in
            let (paid, le) = serve-paid to_add rl.burst rate law at v (omega arith) in
            let rest = known-paid es at (next_limiter at who v rl) v' kept le in
            let split : (at + total es) * rate ≡ at * rate + total es * rate =
              add-mul at (total es) rate in
            rw (own, seen) (omega (arith, paid, rest, more, split))
      ]
