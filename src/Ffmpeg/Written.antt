-- ===== src/Ffmpeg/Written.antt =====
-- What GenerateMasterPlaylist leaves in the file.
use video_encoder_service.Prelude.{
  sym, ℕ, ◌≡◌, refl, ap, subst, ◌∙◌, String, Bool, List, [], ◌∷◌, ◌++◌, map, Option, none, some,
  codes, codes-append, str_append, All,
}
use video_encoder_service.Prelude.Decimal.{Plain}
use video_encoder_service.Prelude.Dict
use mathlib.Core.List.{append_assoc, append-nil}
use video_encoder_service.Types.Error.{◌>>=◌}
use video_encoder_service.Types.Encoding.{QualityVariant}
use video_encoder_service.Types.Triple.{
  Post, Ensures, Ensures-pure, Ensures-bind, Ensures-fail, Ensures-wrapping, Ensures-weaken,
}
use video_encoder_service.Ffmpeg.Shell.{
  Shell, Tools, query, set_text, add_text, no_error, create_file, write_string,
}
use video_encoder_service.Ffmpeg.Playlist.{
  stream_line, uri_line, write_variants, generate_master_playlist,
}
use video_encoder_service.Ffmpeg.Reader.{
  entry_of, variants_text, read_playlist, read_header_variants,
}

-- A write puts the whole text into the file.
abbrev pub IsWhole : Tools → Type 0
IsWhole t = (n : ℕ) (text : String) → t.cut n text ≡ text

-- The bytes of a file.
abbrev pub Contains : String → List ℕ → Shell → Type 0
Contains path l s = (text : String) × (Dict.lookup path s.texts ≡ some text) × (codes text ≡ l)

-- The file cannot be made, as the answer of a call says.
abbrev pub Refused : Tools → String → ℕ → Type 0
Refused t path n = (why : String) × (t.file n path ≡ some why)

module _ (t : Tools) (path : String) (n : ℕ) where
  checked :
      (o : Option String)
      → Ensures (λ _. Refused t path n) (λ s. t.file n path ≡ o) (λ _ s. Unit) (no_error o)
  unfolding no_error
  checked none = Ensures-pure tt λ s h. tt
  checked (some why) = Ensures-fail _ λ s h. (why, h)

  created :
      Ensures (λ _. Refused t path n) (λ s. s.tick ≡ n) (λ _. Contains path []) (create_file t path)
  unfolding create_file query set_text
  created =
      Ensures-bind (λ r s. t.file n path ≡ r) _ _
        (record { at = λ s h. ap (λ k. t.file k path) (sym h) })
        λ r.
          Ensures-bind (λ _ s. Unit) _ _ (checked r)
            λ u. record { at = λ s h. ("", Dict.lookup-insert_self path "" s.texts, refl) }

  module _ (whole : IsWhole t) where
    written :
        (l : List ℕ) (text : String)
        → Ensures
            (λ _. Refused t path n)
            (Contains path l)
            (λ _. Contains path (l ++ codes text))
            (write_string t path text)
    unfolding write_string query add_text ◌>>=◌
    written l text = record {
      at = λ s (old, look, same).
          let e : codes (str_append old text) ≡ l ++ codes text =
            codes-append old text ∙ ap (λ k. k ++ codes text) same in
          rw (whole s.tick text) (
            rw look (
              (
                str_append old text,
                Dict.lookup-insert_self path (str_append old text) s.texts,
                e,
              )));
    }

    variants_written :
        (l : List ℕ) (vs : List QualityVariant) (a : Bool)
        → Ensures
            (λ _. Refused t path n)
            (Contains path l)
            (λ _. Contains path (l ++ variants_text a vs))
            (write_variants t path vs a)
    unfolding write_variants
    variants_written l [] a = Ensures-pure tt λ s h. rw (append-nil l) h
    variants_written l (v ∷ vs) a =
        let one = codes (stream_line v a) in
        let two = codes (uri_line v) in
        let joined : ((l ++ one) ++ two) ++ variants_text a vs
            ≡ l ++ (one ++ (two ++ variants_text a vs)) =
          append_assoc (l ++ one) two (variants_text a vs)
          ∙ append_assoc l one (two ++ variants_text a vs) in
        Ensures-bind (λ _. Contains path (l ++ one)) _ _ (written l (stream_line v a))
          λ u.
            Ensures-bind (λ _. Contains path ((l ++ one) ++ two)) _ _
              (written (l ++ one) (uri_line v))
              λ x.
                Ensures-weaken _ (variants_written ((l ++ one) ++ two) vs a) (λ s h. h) (λ s h. h)
                  λ y s h. subst (λ k. Contains path k s) joined h

    all_written :
        (vs : List QualityVariant) (a : Bool)
        → Ensures
            (λ _. Refused t path n)
            (λ s. s.tick ≡ n)
            (λ _.
              Contains path
                (codes "#EXTM3U\n" ++ (codes "#EXT-X-VERSION:3\n" ++ variants_text a vs)))
            (generate_master_playlist t path vs a)
    unfolding generate_master_playlist
    all_written vs a =
        Ensures-bind (λ _. Contains path []) _ _ (Ensures-wrapping _ _ created)
          λ u.
            Ensures-bind (λ _. Contains path (codes "#EXTM3U\n")) _ _ (written [] "#EXTM3U\n")
              λ x.
                Ensures-bind (λ _. Contains path (codes "#EXTM3U\n" ++ codes "#EXT-X-VERSION:3\n"))
                  _ _ (written (codes "#EXTM3U\n") "#EXT-X-VERSION:3\n")
                  λ y. variants_written (codes "#EXTM3U\n" ++ codes "#EXT-X-VERSION:3\n") vs a

-- The file is there, and a player that reads it finds the streams of the variants, in their order.
abbrev pub Plays : String → Bool → List QualityVariant → Shell → Type 0
Plays path a vs s =
    (text : String) × (Dict.lookup path s.texts ≡ some text)
    × (read_playlist (codes text) ≡ map (entry_of a) vs)

-- GenerateMasterPlaylist never panics, and returns an error only where the file cannot be made.
-- Otherwise, where each write is whole and no name of a variant has a line break, a player that reads
-- the file line by line finds exactly the variants, in order, each with its bandwidth, width, height
-- and the path of its playlist.
pub generate_master_playlist-Plays :
    (t : Tools) (path : String) (vs : List QualityVariant) (a : Bool) (s : Shell)
    → IsWhole t
    → All (λ v. Plain (codes v.name)) vs
    → Post
        (λ _. Refused t path s.tick)
        (λ _. Plays path a vs)
        (generate_master_playlist t path vs a s)
generate_master_playlist-Plays t path vs a s whole plain =
    let plays : (w : Shell)
        → Contains path (codes "#EXTM3U\n" ++ (codes "#EXT-X-VERSION:3\n" ++ variants_text a vs)) w
        → Plays path a vs w =
      λ w (text, look, same).
        (text, look, ap read_playlist same ∙ read_header_variants a vs plain) in
    (Ensures-weaken _ (all_written t path s.tick whole vs a) (λ w h. h) (λ w h. h) (λ u. plays)).at
      s refl
