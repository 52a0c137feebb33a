-- ===== src/Delivery/Tests.antt =====
-- A finished job with two qualities and a CDN.
use video_encoder_service.Prelude.{◌≡◌, refl, true, [], ◌∷◌, some, none, Any, String, inr}
use video_encoder_service.Prelude.Dict
use video_encoder_service.Types.Error.{ok}
use video_encoder_service.Types.Job.{Job, OutputInfo}
use video_encoder_service.Delivery.Cdn.{
  CdnConfig, get_cdn_urls, push_to_cdn, output_urls, master_url, quality_urls, url_at, get_cdn_path,
}
use video_encoder_service.Delivery.Pushed.{Source, get_cdn_urls-push_to_cdn}
use video_encoder_service.Delivery.Storage.{StorageConfig, new_s3_adapter}
use video_encoder_service.Samples.{job}

abbrev output : OutputInfo
output = record {
  output_dir = "outputs/job_5/hls";
  master_playlist = "outputs/job_5/hls/master.m3u8";
  qualities =
      record {
        quality = "240p";
        playlist = "outputs/job_5/hls/240p/main.m3u8";
        chunks_dir = "outputs/job_5/hls/240p";
        chunk_count = 15;
      }
      ∷ [];
  thumbnails = [];
  sprite_sheet = "";
  preview_clip = "";
  preview_gif = "";
  audio = none;
}

abbrev finished_job : Job
finished_job = record job { output = some output }

abbrev cdn : CdnConfig
cdn = record { enabled = true; provider = "CloudFlare"; base_url = "https://cdn.example.com" }

get_cdn_urls-push_to_cdn_example :
    ((push_to_cdn finished_job cdn []).0 ≡ ok tt)
    × ((key url : String)
        → Dict.lookup key (get_cdn_urls finished_job cdn) ≡ some url
        → Any (λ x. (x.1 ≡ url) × Source output key x.0) (push_to_cdn finished_job cdn []).1)
get_cdn_urls-push_to_cdn_example = get_cdn_urls-push_to_cdn finished_job cdn output [] refl

-- The playlist of a quality has another name there than in the master playlist.
quality_url :
    Dict.lookup "240p" (output_urls cdn "job_5" (some output))
    ≡ some "https://cdn.example.com/videos/job_5/240p/index.m3u8"
unfolding output_urls master_url quality_urls url_at get_cdn_path Dict.lookup Dict.insert
quality_url = refl

abbrev bucket : StorageConfig
bucket = record { kind = "s3"; bucket = "videos"; region = "eu-west-1"; path = "" }

bucket_url :
    (new_s3_adapter bucket).upload "a.ts" "a.ts"
    ≡ inr "https://videos.s3.eu-west-1.amazonaws.com/a.ts"
unfolding new_s3_adapter
bucket_url = refl
