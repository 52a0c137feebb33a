-- ===== src/Delivery/Cdn.antt =====
-- internal/application/services/cdn_service.go. The state is the calls of PushContent so far, each
-- the local path and the URL that it returned, newest first.
use video_encoder_service.Prelude.{
  String, Bool, not, List, [], ◌∷◌, map, Option, none, some, codes, str_append, str_eq,
  if◌then◌else◌,
}
use video_encoder_service.Prelude.Dict
use video_encoder_service.Prelude.Dict.{Dict}
use video_encoder_service.Types.Error.{ok, M, ◌>>=◌, ◌>>◌, pure, wrapping}
use video_encoder_service.Types.Job.{Job, OutputInfo, QualityOutput}
use video_encoder_service.Transcode.World.{join}
use video_encoder_service.Transcode.Errors.{bytes_eq}
use video_encoder_service.Validator.Check.{lower}

-- types.CDNConfig
pub record CdnConfig : Type 0 where
  pub enabled : Bool
  pub provider : String
  pub base_url : String

abbrev pub Pushes : Type 0
Pushes = List (String × String)

-- The interface.
pub record CdnProvider : Type 0 where
  pub push_content : String → String → M Pushes String
  pub invalidate_cache : List String → M Pushes (Unit {0})
  pub get_url : String → String

-- filepath.Join of "videos", the ID and the name of a file, which are clean.
unfoldable pub get_cdn_path : String → String → String
get_cdn_path id file = join (join "videos" id) file

-- The URL of a path, as GetCDNURLs and each provider makes it.
unfoldable pub url_at : CdnConfig → String → String
url_at c path = str_append c.base_url (str_append "/" path)

-- PushContent of each provider uploads nothing yet.
unfoldable pub pushed : CdnConfig → String → String → M Pushes String
pushed c local_path remote_path pushes =
    (ok (url_at c remote_path), (local_path, url_at c remote_path) ∷ pushes)

unfoldable pub new_generic_cdn_provider : CdnConfig → CdnProvider
new_generic_cdn_provider c = record {
  push_content = pushed c;
  invalidate_cache = λ paths. pure tt;
  get_url = url_at c;
}

unfoldable pub new_cloudflare_provider : CdnConfig → CdnProvider
new_cloudflare_provider c = record {
  push_content = pushed c;
  invalidate_cache = λ paths. pure tt;
  get_url = url_at c;
}

unfoldable pub new_cloudfront_provider : CdnConfig → CdnProvider
new_cloudfront_provider c = record {
  push_content = pushed c;
  invalidate_cache = λ paths. pure tt;
  get_url = url_at c;
}

-- A `switch` on the lower-case name.
unfoldable pub get_provider : CdnConfig → CdnProvider
get_provider c =
    let name = map lower (codes c.provider) in
    if bytes_eq name (codes "cloudflare")
    then new_cloudflare_provider c
    else if bytes_eq name (codes "cloudfront")
    then new_cloudfront_provider c
    else new_generic_cdn_provider c

unfoldable pub master_url : CdnConfig → String → String → Dict String → Dict String
master_url c id master urls =
    if str_eq master ""
    then urls
    else Dict.insert "master" (url_at c (get_cdn_path id "master.m3u8")) urls

unfoldable pub quality_urls : CdnConfig → String → List QualityOutput → Dict String → Dict String
quality_urls c id [] urls = urls
quality_urls c id (q ∷ qs) urls =
    quality_urls c id qs
      (Dict.insert q.quality (url_at c (get_cdn_path id (str_append q.quality "/index.m3u8"))) urls)

unfoldable pub output_urls : CdnConfig → String → Option OutputInfo → Dict String
output_urls c id none = []
output_urls c id (some o) = quality_urls c id o.qualities (master_url c id o.master_playlist [])

unfoldable pub get_cdn_urls : Job → CdnConfig → Dict String
get_cdn_urls job c = if not c.enabled then [] else output_urls c job.id job.output

unfoldable pub push_master : CdnProvider → String → String → M Pushes (Unit {0})
push_master p id master = if str_eq master "" then pure tt else (do
  url ←
      wrapping "failed to push master playlist: "
        (p.push_content master (get_cdn_path id "master.m3u8"))
  pure tt)

-- The slash at the end of the path of the chunks is cleaned away.
unfoldable pub push_qualities : CdnProvider → String → List QualityOutput → M Pushes (Unit {0})
push_qualities p id [] = pure tt
push_qualities p id (q ∷ qs) = do
  playlist_url ←
      wrapping (str_append "failed to push " (str_append q.quality " playlist: "))
        (p.push_content q.playlist (get_cdn_path id (str_append q.quality "/index.m3u8")))
  chunks_url ←
      wrapping (str_append "failed to push " (str_append q.quality " chunks: "))
        (p.push_content q.chunks_dir (get_cdn_path id (str_append q.quality "/chunks")))
  push_qualities p id qs

unfoldable pub push_output : CdnProvider → String → Option OutputInfo → M Pushes (Unit {0})
push_output p id none = pure tt
push_output p id (some o) = do push_master p id o.master_playlist; push_qualities p id o.qualities

unfoldable pub push_to_cdn : Job → CdnConfig → M Pushes (Unit {0})
push_to_cdn job c =
    if not c.enabled then pure tt else push_output (get_provider c) job.id job.output

unfoldable pub invalidate_cache : Job → CdnConfig → M Pushes (Unit {0})
invalidate_cache job c =
    if not c.enabled
    then pure tt
    else (get_provider c).invalidate_cache (get_cdn_path job.id "*" ∷ [])
