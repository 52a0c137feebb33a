-- ===== src/Ffmpeg/Separated.antt =====
-- A player's view of the master playlist of separate audio and video.
use video_encoder_service.Prelude.{
  ℕ, ◌≡◌, refl, ap, ◌∙◌, String, true, List, [], ◌∷◌, ◌++◌, map, none, codes, codes-append, decimal,
  All,
}
use video_encoder_service.Prelude.Decimal.{Plain, Plain-append}
use mathlib.Core.List.{append_assoc}
use video_encoder_service.Ffmpeg.Separate.{
  VideoVariant, media_line, media_lines, audio_part, video_lines, master_text, audio_variants,
}
use video_encoder_service.Ffmpeg.Reader.{
  Entry, strip, lines_from, bandwidth_at, attributes, entry, read_lines, read_playlist,
  lines-append, line_codes, attributes-line, plain, Plain-literal, Plain-number,
}

-- The entry of a variant.
abbrev pub entry_of_video : VideoVariant → Entry
entry_of_video v = record {
  bandwidth = v.bandwidth;
  width = v.width;
  height = v.height;
  uri = codes v.playlist;
}

abbrev group_codes : List ℕ
group_codes = codes "AUDIO=\"audio\""

abbrev stream_codes : VideoVariant → List ℕ
stream_codes v = line_codes v.bandwidth v.width v.height group_codes

Plain-video_stream : (v : VideoVariant) → Plain (stream_codes v)
unfolding line_codes plain
Plain-video_stream v =
    let end = b',' ∷ group_codes in
    let from_height = codes "x" ++ (codes (decimal v.height) ++ end) in
    let from_width = codes ",RESOLUTION=" ++ (codes (decimal v.width) ++ from_height) in
    Plain-number (codes "#EXT-X-STREAM-INF:BANDWIDTH=") v.bandwidth from_width refl (
      Plain-number (codes ",RESOLUTION=") v.width from_height refl
        (Plain-number (codes "x") v.height end refl (Plain-literal end refl)))

codes-video_lines :
    (v : VideoVariant) (vs : List VideoVariant)
    → codes (video_lines ",AUDIO=\"audio\"" (v ∷ vs))
      ≡ stream_codes v ++ 10 ∷ (codes v.playlist ++ 10 ∷ codes (video_lines ",AUDIO=\"audio\"" vs))
unfolding video_lines line_codes
codes-video_lines v vs = simp (codes-append, append_assoc)

read_videos :
    (vs : List VideoVariant)
    → All (λ v. Plain (codes v.playlist)) vs
    → read_lines none (lines_from [] (codes (video_lines ",AUDIO=\"audio\"" vs)))
      ≡ map entry_of_video vs
unfolding lines_from read_lines video_lines entry
read_videos [] h = refl
read_videos (v ∷ vs) (one, rest) =
    let left = codes (video_lines ",AUDIO=\"audio\"" vs) in
    rw (codes-video_lines v vs) (
      ap (read_lines none) (
        lines-append [] (stream_codes v) (codes v.playlist ++ 10 ∷ left) (Plain-video_stream v)
        ∙ ap (λ k. stream_codes v ∷ k) (lines-append [] (codes v.playlist) left one))
      ∙ ap (λ a. read_lines a (codes v.playlist ∷ lines_from [] left))
          (attributes-line v.bandwidth v.width v.height group_codes)
      ∙ ap (λ es. entry_of_video v ∷ es) (read_videos vs rest))

abbrev media_front : List ℕ
media_front = codes "#EXT-X-MEDIA:TYPE=AUDIO,GROUP-ID=\"audio\",NAME=\""

abbrev media_end : List ℕ
media_end =
    codes "\",LANGUAGE=\"default\",AUTOSELECT=YES,DEFAULT=YES,URI=\"audio/default/192k/main.m3u8\""

-- The line of the one audio rendition.
abbrev media_codes : (String → String) → List ℕ
media_codes title = media_front ++ (codes (title "default") ++ media_end)

codes-master_text :
    (title : String → String) (vs : List VideoVariant)
    → codes (master_text vs (audio_variants title true ("default" ∷ [])))
      ≡ codes "#EXTM3U\n#EXT-X-VERSION:6\n\n# Audio Renditions\n"
        ++ (media_codes title
            ++ 10 ∷ (codes "\n# Video Renditions\n" ++ codes (video_lines ",AUDIO=\"audio\"" vs)))
unfolding master_text audio_part media_lines media_line audio_variants
codes-master_text title vs = simp (codes-append, append_assoc)

-- A player that reads the master playlist finds the variants, in order, and nothing else.
pub read_master :
    (title : String → String) (vs : List VideoVariant)
    → Plain (codes (title "default"))
    → All (λ v. Plain (codes v.playlist)) vs
    → read_playlist (codes (master_text vs (audio_variants title true ("default" ∷ []))))
      ≡ map entry_of_video vs
unfolding read_playlist lines_from read_lines attributes strip bandwidth_at plain
read_master title vs named plain_paths =
    let left = codes "\n# Video Renditions\n" ++ codes (video_lines ",AUDIO=\"audio\"" vs) in
    let whole : Plain (media_codes title) =
      Plain-append media_front _ (Plain-literal media_front refl)
        (Plain-append (codes (title "default")) _ named (Plain-literal media_end refl)) in
    rw (codes-master_text title vs) (
      ap (read_lines none) (lines-append [] (media_codes title) left whole)
      ∙ read_videos vs plain_paths)
