-- ===== src/Delivery/Pushed.antt =====
-- The URLs of a job against what is pushed to its CDN.
use video_encoder_service.Prelude.{
  ◌⊎◌, inl, inr, ◌≡◌, refl, sym, ◌∙◌, subst, String, true, List, [], ◌∷◌, some, codes, map, str_eq,
  str_eq_iff, str_append, Bool-cases, Any, All,
}
use video_encoder_service.Prelude.Dict
use video_encoder_service.Prelude.Dict.{Dict}
use mathlib.Core.Option.{some-injective}
use video_encoder_service.Types.Error.{Result, ok, err, panic, next, ◌>>=◌, pure, wrapping}
use video_encoder_service.Types.Job.{Job, OutputInfo, QualityOutput}
use video_encoder_service.Transcode.Errors.{bytes_eq}
use video_encoder_service.Validator.Check.{lower}
use video_encoder_service.Delivery.Cdn.{
  CdnConfig, Pushes, get_cdn_path, url_at, pushed, get_provider, new_generic_cdn_provider,
  new_cloudflare_provider, new_cloudfront_provider, master_url, quality_urls, output_urls,
  get_cdn_urls, push_master, push_qualities, push_output, push_to_cdn,
}

-- The file behind a key: the master playlist, or the playlist of a quality of that name.
abbrev pub Source : OutputInfo → String → String → Type 0
Source o key path =
    ((key ≡ "master") × (path ≡ o.master_playlist))
    ⊎ Any (λ q. (q.quality ≡ key) × (q.playlist ≡ path)) o.qualities

-- Each URL was returned for a file that the key stands for.
abbrev Backed : (String → String → Type 0) → Dict String → Pushes → Type 0
Backed P urls pushes =
    (key url : String) → Dict.lookup key urls ≡ some url → Any (λ x. (x.1 ≡ url) × P key x.0) pushes

-- The providers differ by their names alone.
get_provider-generic : (c : CdnConfig) → get_provider c ≡ new_generic_cdn_provider c
unfolding get_provider new_generic_cdn_provider new_cloudflare_provider new_cloudfront_provider
get_provider-generic c =
    let name = map lower (codes c.provider) in
    elim (Bool-cases (bytes_eq name (codes "cloudflare"))) [
      | inl first ↦ rw first refl
      | inr other ↦ rw other (elim (Bool-cases (bytes_eq name (codes "cloudfront"))) [
        | inl second ↦ rw second refl
        | inr none' ↦ rw none' refl
      ])
    ]

not_there : (key url : String) → Dict.lookup key [] ≡ some url → ⊥
unfolding Dict.lookup
not_there key url look = cc

module _ (P : String → String → Type 0) where
  -- A URL is added with the push that returned it.
  Backed-insert :
      (key url path : String) (urls : Dict String) (pushes : Pushes)
      → P key path
      → Backed P urls pushes
      → Backed P (Dict.insert key url urls) ((path, url) ∷ pushes)
  Backed-insert key url path urls pushes h b k u look =
      let split = Dict.lookup-insert key k url urls in
      elim (Bool-cases (str_eq key k)) [
        | inl same ↦ inl (
          some-injective _ _ (sym (rw same at split) ∙ look),
          subst (λ j. P j path) ((str_eq_iff key k).0 same) h,
        )
        | inr other ↦ inr (b k u (sym (rw other at split) ∙ look))
      ]

  qualities-Backed :
      (c : CdnConfig) (id : String) (qs : List QualityOutput) (urls : Dict String) (pushes : Pushes)
      → All (λ q. P q.quality q.playlist) qs
      → Backed P urls pushes
      → ((push_qualities (new_generic_cdn_provider c) id qs pushes).0 ≡ ok tt)
        × Backed P
            (quality_urls c id qs urls)
            (push_qualities (new_generic_cdn_provider c) id qs pushes).1
  unfolding push_qualities quality_urls pushed new_generic_cdn_provider wrapping pure ◌>>=◌
  qualities-Backed c id [] urls pushes all b = (refl, b)
  qualities-Backed c id (q ∷ qs) urls pushes (h, hs) b =
      let playlist = get_cdn_path id (str_append q.quality "/index.m3u8") in
      let chunks = get_cdn_path id (str_append q.quality "/chunks") in
      qualities-Backed c id qs (Dict.insert q.quality (url_at c playlist) urls)
        ((q.chunks_dir, url_at c chunks) ∷ (q.playlist, url_at c playlist) ∷ pushes) hs
        (λ k u look.
          inr (Backed-insert q.quality (url_at c playlist) q.playlist urls pushes h b k u look))

  master-Backed :
      (c : CdnConfig) (id master : String) (pushes : Pushes)
      → P "master" master
      → ((push_master (new_generic_cdn_provider c) id master pushes).0 ≡ ok tt)
        × Backed P
            (master_url c id master [])
            (push_master (new_generic_cdn_provider c) id master pushes).1
  unfolding push_master master_url pushed new_generic_cdn_provider wrapping pure ◌>>=◌
  master-Backed c id master pushes h = elim (Bool-cases (str_eq master "")) [
    | inl missing ↦ rw missing (refl, λ k u look. absurd (not_there k u look))
    | inr there ↦
        let path = get_cdn_path id "master.m3u8" in
        rw there (
          refl,
          Backed-insert "master" (url_at c path) master [] pushes h
              (λ k u look. absurd (not_there k u look)),
        )
  ]

abbrev Same : QualityOutput → QualityOutput → Type 0
Same q r = (r.quality ≡ q.quality) × (r.playlist ≡ q.playlist)

-- Each output is one of the outputs.
each_there :
    (xs ys : List QualityOutput)
    → ((q : QualityOutput) → Any (Same q) xs → Any (Same q) ys)
    → All (λ q. Any (Same q) ys) xs
each_there [] ys into = tt
each_there (x ∷ xs) ys into = (into x (inl (refl, refl)), each_there xs ys (λ q a. into q (inr a)))

All-weaken :
    {A : Type 0} (P Q : A → Type 0) (xs : List A) → ((x : A) → P x → Q x) → All P xs → All Q xs
All-weaken P Q [] f h = tt
All-weaken P Q (x ∷ xs) f (h, hs) = (f x h, All-weaken P Q xs f hs)

sources : (o : OutputInfo) → All (λ q. Source o q.quality q.playlist) o.qualities
sources o = All-weaken _ _ o.qualities (λ q a. inr a) (each_there o.qualities o.qualities λ q a. a)

-- What follows the push of the master playlist.
rest-Backed :
    (c : CdnConfig) (id : String) (o : OutputInfo) (r : Result (Unit {0}) × Pushes)
    → r.0 ≡ ok tt
    → Backed (Source o) (master_url c id o.master_playlist []) r.1
    → ((next (λ u. push_qualities (new_generic_cdn_provider c) id o.qualities) r).0 ≡ ok tt)
      × Backed
          (Source o)
          (output_urls c id (some o))
          (next (λ u. push_qualities (new_generic_cdn_provider c) id o.qualities) r).1
unfolding output_urls
rest-Backed c id o (ok u, pushes) done b =
    qualities-Backed (Source o) c id o.qualities (master_url c id o.master_playlist []) pushes
      (sources o) b
rest-Backed c id o (err e, pushes) done b = absurd (cc)
rest-Backed c id o (panic, pushes) done b = absurd (cc)

output-Backed :
    (c : CdnConfig) (id : String) (o : OutputInfo) (pushes : Pushes)
    → ((push_output (new_generic_cdn_provider c) id (some o) pushes).0 ≡ ok tt)
      × Backed
          (Source o)
          (output_urls c id (some o))
          (push_output (new_generic_cdn_provider c) id (some o) pushes).1
unfolding push_output output_urls ◌>>=◌
output-Backed c id o pushes =
    let (done, b) = master-Backed (Source o) c id o.master_playlist pushes (inl (refl, refl)) in
    rest-Backed c id o (push_master (new_generic_cdn_provider c) id o.master_playlist pushes) done b

-- Where PushToCDN has pushed a finished job, each URL that GetCDNURLs gives was returned by a call of
-- PushContent for the file that its key stands for: the master playlist for "master", and the
-- playlist of a quality of that name otherwise. PushToCDN returns no error.
pub get_cdn_urls-push_to_cdn :
    (job : Job) (c : CdnConfig) (o : OutputInfo) (pushes : Pushes)
    → job.output ≡ some o
    → ((push_to_cdn job c pushes).0 ≡ ok tt)
      × ((key url : String)
          → Dict.lookup key (get_cdn_urls job c) ≡ some url
          → Any (λ x. (x.1 ≡ url) × Source o key x.0) (push_to_cdn job c pushes).1)
unfolding push_to_cdn get_cdn_urls pure
get_cdn_urls-push_to_cdn job c o pushes has = elim (Bool-cases c.enabled) [
  | inl on ↦ rw on (
      rw has (
        rw (get_provider-generic (record c { enabled = true }))
          (output-Backed (record c { enabled = true }) job.id o pushes)))
  | inr off ↦ rw off (refl, λ k u look. absurd (not_there k u look))
]
