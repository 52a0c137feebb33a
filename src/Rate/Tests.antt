-- ===== src/Rate/Tests.antt =====
-- A limiter of 60 requests a minute with a burst of 2.
use video_encoder_service.Prelude.{
  String, ℕ, ◌+◌, ◌*◌, ◌/◌, ◌≤◌, ◌≡◌, refl, List, [], ◌∷◌, none, arith, ◌≢◌, inl, str_eq_iff,
}
use video_encoder_service.Prelude.Dict
use video_encoder_service.Rate.Limiter.{new_rate_limiter, allow}
use video_encoder_service.Rate.Endpoints.{
  Request, Endpoint, add_endpoint, pass, pass_all, pass-pass_all,
}
use video_encoder_service.Rate.Bound.{minute, allowed_of, total, allowed_of-bound}

abbrev earned : ℕ → ℕ
earned e = e / 1_000_000_000

earned-slow : (e : ℕ) → earned e * minute ≤ e * 60
earned-slow e = omega arith

-- Five requests in 1.2 seconds, of which four are of one visitor: three of those are allowed.
abbrev calls : List (String × ℕ)
calls = ("a", 0) ∷ ("a", 100_000_000) ∷ ("b", 0) ∷ ("a", 100_000_000) ∷ ("a", 1_000_000_000) ∷ []

allowed_three : allowed_of earned "a" calls 7 (new_rate_limiter 2) ≡ 3
unfolding allowed_of allow new_rate_limiter Dict.lookup Dict.insert
allowed_three = refl

no_visitor : Dict.lookup "a" (new_rate_limiter 2).visitors ≡ none
unfolding new_rate_limiter Dict.lookup
no_visitor = refl

allowed_of-bound_example :
    allowed_of earned "a" calls 7 (new_rate_limiter 2) * minute
    ≤ (new_rate_limiter 2).burst * minute + total calls * 60
allowed_of-bound_example =
    allowed_of-bound earned 60 earned-slow "a" calls 7 (new_rate_limiter 2) no_visitor

abbrev post : String → String → Request
post path ip = record {
  path = path;
  forwarded_for = "";
  real_ip = ip;
  remote_addr = "10.0.0.1:80";
  seen = 5;
  now = 6;
}

abbrev limited : Dict.Dict Endpoint
limited = add_endpoint "/transcode" 60 2 []

elsewhere : ◌≢◌ {A = String} "/jobs" "/transcode"
elsewhere same = let h = (str_eq_iff "/jobs" "/transcode").1 same in ground (arith, h)

pass-pass_all_example :
    (pass
      (λ rate. earned)
      (post "/transcode" "a")
      (pass_all (λ rate. earned) (post "/jobs" "a" ∷ []) limited)).0
    ≡ (pass (λ rate. earned) (post "/transcode" "a") limited).0
pass-pass_all_example =
    pass-pass_all (λ rate. earned) (post "/transcode" "a") (post "/jobs" "a" ∷ []) limited
      (inl elsewhere, tt)
