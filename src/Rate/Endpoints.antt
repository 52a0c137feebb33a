-- ===== src/Rate/Endpoints.antt =====
-- EndpointRateLimiter and getClientIP of rate_limiter.go.
use video_encoder_service.Prelude.{
  ◌⊎◌, inl, inr, ℕ, String, Bool, true, false, ◌≡◌, ◌≢◌, refl, sym, ◌∙◌, ap, List, [], ◌∷◌, Option,
  none, some, if◌then◌else◌, str_eq, str_eq_iff, Option-cases, Bool-cases, All, arith,
}
use video_encoder_service.Prelude.Dict
use video_encoder_service.Prelude.Dict.{Dict}
use video_encoder_service.Rate.Limiter.{
  Visitor, RateLimiter, new_rate_limiter, visitor_or_new, allow, serve,
}

-- What a limiter reads of a request, and the two times of its call of allow.
pub record Request : Type 0 where
  pub path : String
  pub forwarded_for : String
  pub real_ip : String
  pub remote_addr : String
  pub seen : ℕ
  pub now : ℕ

unfoldable pub get_client_ip : Request → String
get_client_ip r =
    if str_eq r.forwarded_for ""
    then (if str_eq r.real_ip "" then r.remote_addr else r.real_ip)
    else r.forwarded_for

-- A limiter with its rate.
pub record Endpoint : Type 0 where
  pub rate : ℕ
  pub limiter : RateLimiter

unfoldable pub add_endpoint : String → ℕ → ℕ → Dict Endpoint → Dict Endpoint
add_endpoint path rate burst m =
    Dict.insert path (record { rate = rate; limiter = new_rate_limiter burst }) m

abbrev pub put_endpoint :
    String → Endpoint → Dict Endpoint → Bool × RateLimiter → Bool × Dict Endpoint
put_endpoint path e m (allowed, l) = (allowed, Dict.insert path (record e { limiter = l }) m)

-- `to_add rate elapsed` is the number of tokens that a limiter of the rate adds.
module _ (to_add : ℕ → ℕ → ℕ) where
  unfoldable pub check_endpoint : Request → Option Endpoint → Dict Endpoint → Bool × Dict Endpoint
  check_endpoint r none m = (true, m)
  check_endpoint r (some e) m =
      put_endpoint r.path e m (allow (to_add e.rate) (get_client_ip r) r.seen r.now e.limiter)

  -- Middleware: whether the next handler runs.
  unfoldable pub pass : Request → Dict Endpoint → Bool × Dict Endpoint
  pass r m = check_endpoint r (Dict.lookup r.path m) m

  unfoldable pub pass_all : List Request → Dict Endpoint → Dict Endpoint
  pass_all [] m = m
  pass_all (r ∷ rs) m = pass_all rs (pass r m).1

-- What an endpoint knows of a client: its rate, its burst and the client's bucket.
abbrev pub Account : Type 0
Account = Option (ℕ × ℕ × Option Visitor)

abbrev pub endpoint_account : String → Option Endpoint → Account
endpoint_account ip none = none
endpoint_account ip (some e) = some (e.rate, e.limiter.burst, Dict.lookup ip e.limiter.visitors)

abbrev pub account : String → String → Dict Endpoint → Account
account path ip m = endpoint_account ip (Dict.lookup path m)

-- The request goes to another endpoint or comes from another client.
abbrev pub IsElsewhere : String → String → Request → Type 0
IsElsewhere path ip r = (r.path ≢ path) ⊎ (get_client_ip r ≢ ip)

module _ (to_add : ℕ → ℕ → ℕ) where
  account-put :
      (path ip : String) (r : Request) (e : Endpoint) (m : Dict Endpoint)
      → Dict.lookup r.path m ≡ some e
      → IsElsewhere path ip r
      → account path ip (check_endpoint to_add r (some e) m).1 ≡ account path ip m
  unfolding check_endpoint allow
  account-put path ip r e m found (inl apart) =
      ap (endpoint_account ip) (Dict.lookup-insert_other r.path path _ m apart)
  account-put path ip r e m found (inr apart) = elim (Bool-cases (str_eq r.path path)) [
    | inr other ↦ ap (endpoint_account ip) (
        Dict.lookup-insert_other r.path path _ m
          (λ same. let h = (str_eq_iff r.path path).1 same in ground (arith, h, other)))
    | inl same ↦
        let here = (str_eq_iff r.path path).0 same in
        let there = ap (λ p. Dict.lookup p m) (sym here) ∙ found in
        let split =
          Dict.lookup-insert r.path path
            (record e {
              limiter = (allow (to_add e.rate) (get_client_ip r) r.seen r.now e.limiter).1;
            })
            m in
        ap (endpoint_account ip) (rw same at split)
        ∙ ap (λ v. some (e.rate, e.limiter.burst, v))
            (Dict.lookup-insert_other (get_client_ip r) ip _ e.limiter.visitors apart)
        ∙ ap (endpoint_account ip) (sym there)
  ]

  -- The account after requests of others.
  account-pass :
      (path ip : String) (r : Request) (m : Dict Endpoint)
      → IsElsewhere path ip r
      → account path ip (pass to_add r m).1 ≡ account path ip m
  unfolding pass check_endpoint
  account-pass path ip r m away = elim (Option-cases (Dict.lookup r.path m)) [
    | inl missing ↦ rw missing refl
    | inr (e, found) ↦ rw found (account-put path ip r e m found away)
  ]

  account-pass_all :
      (path ip : String) (rs : List Request) (m : Dict Endpoint)
      → All (IsElsewhere path ip) rs
      → account path ip (pass_all to_add rs m) ≡ account path ip m
  unfolding pass_all
  account-pass_all path ip [] m away = refl
  account-pass_all path ip (r ∷ rs) m away =
      account-pass_all path ip rs (pass to_add r m).1 away.1 ∙ account-pass path ip r m away.0

  -- The decision on a request reads its account alone.
  abbrev answer : Request → Account → Bool
  answer r none = true
  answer r (some (rate, burst, v)) =
      (serve (to_add rate) burst r.now (visitor_or_new burst r.seen v)).0

  pass-answer :
      (r : Request) (m : Dict Endpoint)
      → (pass to_add r m).0 ≡ answer r (account r.path (get_client_ip r) m)
  unfolding pass check_endpoint allow
  pass-answer r m = elim (Option-cases (Dict.lookup r.path m)) [
    | inl missing ↦ rw missing refl
    | inr (e, found) ↦ rw found refl
  ]

  -- Requests to other endpoints, and those of other clients, change nothing about the decision on a
  -- request, however many they are.
  pub pass-pass_all :
      (r : Request) (rs : List Request) (m : Dict Endpoint)
      → All (IsElsewhere r.path (get_client_ip r)) rs
      → (pass to_add r (pass_all to_add rs m)).0 ≡ (pass to_add r m).0
  pass-pass_all r rs m away =
      pass-answer r (pass_all to_add rs m)
      ∙ ap (answer r) (account-pass_all r.path (get_client_ip r) rs m away)
      ∙ sym (pass-answer r m)

-- A client that sends a new X-Forwarded-For header with each request is a new client each time.
forwarded_client :
    (r : Request) (s : String)
    → str_eq s "" ≡ false
    → get_client_ip (record r { forwarded_for = s }) ≡ s
unfolding get_client_ip
forwarded_client r s h = rw h refl
