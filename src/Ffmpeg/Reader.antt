-- ===== src/Ffmpeg/Reader.antt =====
-- A player's view of a master playlist: the lines of the text, and of each line of a stream its
-- attributes with the line of its playlist.
use video_encoder_service.Prelude.{
  ℕ, ◌≡◌, refl, sym, ap, ◌∙◌, Bool, true, false, List, [], ◌∷◌, ◌++◌, map, Option, none, some,
  codes, codes-append, decimal, ◌==◌, ◌&&◌, not, if◌then◌else◌, All, arith,
}
use video_encoder_service.Prelude.Decimal.{
  number, number-decimal, Plain, Plain-append, Plain-decimal,
}
use mathlib.Core.List.{append_assoc, append-nil}
use video_encoder_service.Types.Encoding.{QualityVariant}
use video_encoder_service.Ffmpeg.Playlist.{bandwidth_of, codec_text, stream_line, uri_line}

pub record Entry : Type 0 where
  pub bandwidth : ℕ
  pub width : ℕ
  pub height : ℕ
  pub uri : List ℕ

pub record Attributes : Type 0 where
  pub bandwidth : ℕ
  pub width : ℕ
  pub height : ℕ

-- What follows a text at the front of another.
unfoldable pub strip : List ℕ → List ℕ → Option (List ℕ)
strip [] s = some s
strip (c ∷ p) [] = none
strip (c ∷ p) (d ∷ s) = let rest = strip p s in if c == d then rest else none

-- The lines of a text; what follows the last newline is no line.
unfoldable pub lines_from : List ℕ → List ℕ → List (List ℕ)
lines_from cur [] = []
lines_from cur (c ∷ s) =
    let ended = cur ∷ lines_from [] s in
    let more = lines_from (cur ++ c ∷ []) s in if c == 10 then ended else more

unfoldable pub height_of : ℕ → ℕ → Option (List ℕ) → Option Attributes
height_of bandwidth width none = none
height_of bandwidth width (some s) =
    some (record { bandwidth = bandwidth; width = width; height = (number 0 s).0 })

unfoldable pub width_of : ℕ → Option (List ℕ) → Option Attributes
width_of bandwidth none = none
width_of bandwidth (some s) =
    let (width, rest) = number 0 s in height_of bandwidth width (strip (codes "x") rest)

unfoldable pub bandwidth_at : Option (List ℕ) → Option Attributes
bandwidth_at none = none
bandwidth_at (some s) =
    let (bandwidth, rest) = number 0 s in width_of bandwidth (strip (codes ",RESOLUTION=") rest)

unfoldable pub attributes : List ℕ → Option Attributes
attributes l = bandwidth_at (strip (codes "#EXT-X-STREAM-INF:BANDWIDTH=") l)

unfoldable pub entry : Attributes → List ℕ → Entry
entry a uri = record { bandwidth = a.bandwidth; width = a.width; height = a.height; uri = uri }

unfoldable pub read_lines : Option Attributes → List (List ℕ) → List Entry
read_lines a [] = []
read_lines none (l ∷ ls) = read_lines (attributes l) ls
read_lines (some a) (l ∷ ls) = entry a l ∷ read_lines none ls

unfoldable pub read_playlist : List ℕ → List Entry
read_playlist s = read_lines none (lines_from [] s)

strip-append : (p s : List ℕ) → strip p (p ++ s) ≡ some s
unfolding strip
strip-append [] s = refl
strip-append (c ∷ p) s = ground (arith, strip-append p s)

pub lines-append :
    (cur l s : List ℕ) → Plain l → lines_from cur (l ++ 10 ∷ s) ≡ (cur ++ l) ∷ lines_from [] s
unfolding lines_from
lines-append cur [] s h = ap (λ l. l ∷ lines_from [] s) (sym (append-nil cur))
lines-append cur (c ∷ l) s (h, hs) = rw h (
    lines-append (cur ++ c ∷ []) l s hs
    ∙ ap (λ k. k ∷ lines_from [] s) (append_assoc cur (c ∷ []) l))

-- The line of a stream, without its newline.
unfoldable pub line_codes : ℕ → ℕ → ℕ → List ℕ → List ℕ
line_codes b w h rest =
    codes "#EXT-X-STREAM-INF:BANDWIDTH="
    ++ (codes (decimal b)
        ++ (codes ",RESOLUTION="
            ++ (codes (decimal w) ++ (codes "x" ++ (codes (decimal h) ++ b',' ∷ rest)))))

bandwidth_at-decimal :
    (b : ℕ) (s : List ℕ)
    → bandwidth_at (some (codes (decimal b) ++ (codes ",RESOLUTION=" ++ s))) ≡ width_of b (some s)
unfolding bandwidth_at
bandwidth_at-decimal b s =
    ap (λ x. width_of x.0 (strip (codes ",RESOLUTION=") x.1))
      (number-decimal b b',' (codes "RESOLUTION=" ++ s) refl)
    ∙ ap (width_of b) (strip-append (codes ",RESOLUTION=") s)

width_of-decimal :
    (b w : ℕ) (s : List ℕ)
    → width_of b (some (codes (decimal w) ++ (codes "x" ++ s))) ≡ height_of b w (some s)
unfolding width_of
width_of-decimal b w s =
    ap (λ x. height_of b x.0 (strip (codes "x") x.1)) (number-decimal w b'x' s refl)
    ∙ ap (height_of b w) (strip-append (codes "x") s)

height_of-decimal :
    (b w h : ℕ) (s : List ℕ)
    → height_of b w (some (codes (decimal h) ++ b',' ∷ s))
      ≡ some (record { bandwidth = b; width = w; height = h })
unfolding height_of
height_of-decimal b w h s =
    ap (λ x. some (record { bandwidth = b; width = w; height = x.0 }))
      (number-decimal h b',' s refl)

pub attributes-line :
    (b w h : ℕ) (rest : List ℕ)
    → attributes (line_codes b w h rest) ≡ some (record { bandwidth = b; width = w; height = h })
unfolding attributes line_codes
attributes-line b w h rest =
    ap bandwidth_at (strip-append (codes "#EXT-X-STREAM-INF:BANDWIDTH=") _)
    ∙ bandwidth_at-decimal b _
    ∙ width_of-decimal b w _
    ∙ height_of-decimal b w h rest

unfoldable pub plain : List ℕ → Bool
plain [] = true
plain (c ∷ s) = not (c == 10) && plain s

pub Plain-literal : (s : List ℕ) → plain s ≡ true → Plain s
unfolding plain
Plain-literal [] h = tt
Plain-literal (c ∷ s) h = (ground arith, Plain-literal s (ground arith))

-- The line of a variant in the text of the program.
codec_rest : Bool → List ℕ
codec_rest has_audio = codes "CODECS=\"" ++ (codes (codec_text has_audio) ++ codes "\"")

abbrev stream_codes : QualityVariant → Bool → List ℕ
stream_codes v a = line_codes (bandwidth_of v a) v.width v.height (codec_rest a)

codes-stream_line :
    (v : QualityVariant) (a : Bool) → codes (stream_line v a) ≡ stream_codes v a ++ 10 ∷ []
unfolding stream_line line_codes codec_rest
codes-stream_line v a = simp (codes-append, append_assoc)

Plain-codec : (a : Bool) → Plain (codec_rest a)
unfolding codec_rest codec_text plain
Plain-codec true = Plain-literal (codec_rest true) refl
Plain-codec false = Plain-literal (codec_rest false) refl

pub Plain-number :
    (front : List ℕ) (n : ℕ) (s : List ℕ)
    → plain front ≡ true
    → Plain s
    → Plain (front ++ (codes (decimal n) ++ s))
Plain-number front n s h hs =
    Plain-append front (codes (decimal n) ++ s) (Plain-literal front h)
      (Plain-append (codes (decimal n)) s (Plain-decimal n) hs)

Plain-stream : (v : QualityVariant) (a : Bool) → Plain (stream_codes v a)
unfolding line_codes plain
Plain-stream v a =
    let end = b',' ∷ codec_rest a in
    let from_height = codes "x" ++ (codes (decimal v.height) ++ end) in
    let from_width = codes ",RESOLUTION=" ++ (codes (decimal v.width) ++ from_height) in
    Plain-number (codes "#EXT-X-STREAM-INF:BANDWIDTH=") (bandwidth_of v a) from_width refl (
      Plain-number (codes ",RESOLUTION=") v.width from_height refl
        (Plain-number (codes "x") v.height end refl (refl, Plain-codec a)))

-- The entry of a variant.
pub entry_of : Bool → QualityVariant → Entry
entry_of a v = record {
  bandwidth = bandwidth_of v a;
  width = v.width;
  height = v.height;
  uri = codes v.name ++ codes "/main.m3u8";
}

-- The texts that are written for the variants, one after another.
abbrev pub variants_text : Bool → List QualityVariant → List ℕ
variants_text a [] = []
variants_text a (v ∷ vs) = codes (stream_line v a) ++ (codes (uri_line v) ++ variants_text a vs)

codes-uri_line :
    (v : QualityVariant) → codes (uri_line v) ≡ (codes v.name ++ codes "/main.m3u8") ++ 10 ∷ 10 ∷ []
unfolding uri_line
codes-uri_line v = simp (codes-append, append_assoc)

-- Two lines and an empty one.
lines_of_pair :
    (l m s : List ℕ)
    → Plain l
    → Plain m
    → lines_from [] ((l ++ 10 ∷ []) ++ ((m ++ 10 ∷ 10 ∷ []) ++ s)) ≡ l ∷ m ∷ [] ∷ lines_from [] s
unfolding lines_from
lines_of_pair l m s hl hm = rw (append_assoc l (10 ∷ []) ((m ++ 10 ∷ 10 ∷ []) ++ s)) (
    rw (append_assoc m (10 ∷ 10 ∷ []) s)
      (lines-append [] l _ hl ∙ ap (λ k. l ∷ k) (lines-append [] m (10 ∷ s) hm)))

read_entry :
    (at : Attributes) (l uri : List ℕ) (ls : List (List ℕ))
    → attributes l ≡ some at
    → read_lines none (l ∷ uri ∷ [] ∷ ls) ≡ entry at uri ∷ read_lines none ls
unfolding read_lines attributes strip bandwidth_at
read_entry at l uri ls e = ap (λ x. read_lines x (uri ∷ [] ∷ ls)) e

read_variants :
    (a : Bool) (vs : List QualityVariant)
    → All (λ v. Plain (codes v.name)) vs
    → read_lines none (lines_from [] (variants_text a vs)) ≡ map (entry_of a) vs
unfolding entry_of entry plain lines_from read_lines
read_variants a [] h = refl
read_variants a (v ∷ vs) (one, rest) =
    let uri_plain = Plain-append (codes v.name) _ one (Plain-literal (codes "/main.m3u8") refl) in
    rw (codes-stream_line v a) (
      rw (codes-uri_line v) (
        ap (read_lines none)
          (lines_of_pair (stream_codes v a) _ (variants_text a vs) (Plain-stream v a) uri_plain)
        ∙ read_entry _ _ _ _ (attributes-line (bandwidth_of v a) v.width v.height (codec_rest a))
        ∙ ap (λ es. entry_of a v ∷ es) (read_variants a vs rest)))

-- The text of a playlist, from its header on.
pub read_header_variants :
    (a : Bool) (vs : List QualityVariant)
    → All (λ v. Plain (codes v.name)) vs
    → read_playlist (codes "#EXTM3U\n" ++ (codes "#EXT-X-VERSION:3\n" ++ variants_text a vs))
      ≡ map (entry_of a) vs
unfolding read_playlist lines_from read_lines attributes strip bandwidth_at
read_header_variants a vs h = read_variants a vs h
