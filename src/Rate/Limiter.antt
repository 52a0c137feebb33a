-- ===== src/Rate/Limiter.antt =====
-- RateLimiter: allow and cleanupVisitors. The mutexes make each call of allow atomic for a visitor.
use video_encoder_service.Prelude.{
  ℕ, ◌+◌, ◌-◌, ◌*◌, String, Bool, true, false, [], ◌∷◌, Option, none, some, if◌then◌else◌, ltb,
}
use video_encoder_service.Prelude.Dict
use video_encoder_service.Prelude.Dict.{Dict}

pub record Visitor : Type 0 where
  pub tokens : ℕ
  pub last_seen : ℕ

pub record RateLimiter : Type 0 where
  pub visitors : Dict Visitor
  pub burst : ℕ
  pub cleanup : ℕ

unfoldable pub new_rate_limiter : ℕ → RateLimiter
new_rate_limiter burst = record { visitors = []; burst = burst; cleanup = 5 * 60 * 1_000_000_000 }

abbrev pub visitor_or_new : ℕ → ℕ → Option Visitor → Visitor
visitor_or_new burst now none = record { tokens = burst; last_seen = now }
visitor_or_new burst now (some v) = v

abbrev capped : ℕ → ℕ → ℕ
capped burst n = if ltb burst n then burst else n

unfoldable pub refill : ℕ → ℕ → ℕ → Visitor → Visitor
refill burst tokens_to_add now v =
    if ltb 0 tokens_to_add
    then record { tokens = capped burst (v.tokens + tokens_to_add); last_seen = now }
    else v

unfoldable pub take_token : Visitor → Bool × Visitor
take_token v = if ltb 0 v.tokens then (true, record v { tokens = v.tokens - 1 }) else (false, v)

module _ (to_add : ℕ → ℕ) where
  -- The part of allow that holds the lock of the visitor.
  unfoldable pub serve : ℕ → ℕ → Visitor → Bool × Visitor
  unfolding refill take_token
  serve burst now v = take_token (refill burst (to_add (now - v.last_seen)) now v)

  abbrev stored : String → RateLimiter → Bool × Visitor → Bool × RateLimiter
  stored ip rl (allowed, v) = (allowed, record rl { visitors = Dict.insert ip v rl.visitors })

  -- allow; `seen` is the time of the first call of time.Now(), and `now` of the second.
  unfoldable pub allow : String → ℕ → ℕ → RateLimiter → Bool × RateLimiter
  unfolding serve
  allow ip seen now rl =
      stored ip rl (serve rl.burst now (visitor_or_new rl.burst seen (Dict.lookup ip rl.visitors)))

abbrev fresh : ℕ → ℕ → String × Visitor → Dict Visitor → Dict Visitor
fresh now limit (ip, v) rest = if ltb limit (now - v.last_seen) then rest else (ip, v) ∷ rest

sweep : ℕ → ℕ → Dict Visitor → Dict Visitor
sweep now limit [] = []
sweep now limit (e ∷ vs) = let rest = sweep now limit vs in fresh now limit e rest

-- A tick of cleanupVisitors.
unfoldable pub clean_visitors : ℕ → RateLimiter → RateLimiter
unfolding sweep
clean_visitors now rl = record rl { visitors = sweep now rl.cleanup rl.visitors }
