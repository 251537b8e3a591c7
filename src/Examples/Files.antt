-- ===== src/Examples/Files.antt =====
-- Files: include/vermell/util/static_files.h, secure_render.h and mime_types.hpp.
use vermell.Mime.{extension, after_dot, take_until, take_until, of, table, find}
use vermell.Params.{pos}
use vermell.Rendering.{
  is_within, ok, ok, FileSystem, Stat, OpenFile, regular, read_bounded, escape_html,
  valid_include_name,
}
use vermell.Http.Decode.{percent_decode}
use vermell.Http.Response.{WireResponse, set}
use vermell.Http.Text.{lower, hex_value}
use vermell.Mime.Lookup.{of-append}
use vermell.Rendering.Reading.{IsContent, read_bounded-IsBounded}
use vermell.Rendering.Escaping.{escape_html-Shows, Shows, shown}
use vermell.Static.{
  file_etag, make_etag, etag_matches, response_of, has_parent_segment, serve_relative, file_for,
  end_with_slash, relative, serve_path, serve_read, serve_file, answer, cache_control_header,
  StaticMount, new_mount, serve, is_read, under_mount, normalize_mount,
}
use vermell.Static.Mounts.{IsPrefix, normalize_mount-IsPrefix}
use vermell.Static.Serving.{serve-IsJailed, IsJailedAnswer}
use vermell.Prelude.{
  ◌≤◌, ◌≡◌, refl, ap, ◌⊎◌, Bool, true, false, ◌&&◌, Option, none, some, [], ◌∷◌, ◌++◌,
  if◌then◌else◌, Bytes, codes, same, strip_prefix, has_byte, split_on, drop_while, length,
}

-- A disk with one directory, `d`, and the file `d/a.css`.
abbrev css_stat : Stat
css_stat = record { kind = regular; size = 2; mtime = 7 }

abbrev is_css : Bytes → Bool
is_css path = same path (codes "d/a.css")

abbrev disk : FileSystem
disk = record {
  stat = λ path. if is_css path then some css_stat else none;
  open_nofollow = λ path.
      if is_css path
      then some (record { fstat = some css_stat; reads = some (codes "b{") ∷ [] })
      else none;
  absolute = λ path. some path;
  weakly_canonical = λ path. some (split_on b'/' path);
}

abbrev css_mount : StaticMount
css_mount = new_mount (codes "assets/") (codes "d") (record {
  index = codes "index.html";
  spa = false;
  cache = true;
  max_age = pos 0;
  max_file_bytes = 10;
})

abbrev map_body : Option WireResponse → Option Bytes
map_body none = none
map_body (some w) = some w.body

served_css :
    map_body (serve disk css_mount (codes "/assets/a%2Ecss") (codes "GET") []) ≡ some (codes "b{")
unfolding serve same strip_prefix split_on hex_value percent_decode drop_while has_parent_segment
    serve_relative file_for end_with_slash relative is_within serve_path serve_read serve_file
    read_bounded under_mount has_byte answer cache_control_header normalize_mount file_etag
    make_etag etag_matches response_of set
served_css = refl

serve-IsJailed_example :
    ((serve disk css_mount (codes "/assets/a.css") (codes "GET") [] ≡ none)
      × ((is_read (codes "GET") && under_mount css_mount (percent_decode (codes "/assets/a.css")))
          ≡ false))
    ⊎ ((w : WireResponse) × (serve disk css_mount (codes "/assets/a.css") (codes "GET") [] ≡ some w)
        × ((is_read (codes "GET") && under_mount css_mount (percent_decode (codes "/assets/a.css")))
            ≡ true)
        × IsJailedAnswer disk css_mount [] w)
serve-IsJailed_example = serve-IsJailed disk css_mount (codes "/assets/a.css") (codes "GET") []

css_read : read_bounded disk (codes "d/a.css") 10 ≡ record { err = ok; data_ = codes "b{" }
unfolding read_bounded same
css_read = refl

read_bounded-IsBounded_example :
    (length (read_bounded disk (codes "d/a.css") 10).data_ ≤ 10)
    × ((f : OpenFile) × (st : Stat) × (disk.open_nofollow (codes "d/a.css") ≡ some f)
        × (f.fstat ≡ some st)
        × (st.kind ≡ regular)
        × (st.size ≤ 10)
        × IsContent f.reads (read_bounded disk (codes "d/a.css") 10).data_)
read_bounded-IsBounded_example =
    read_bounded-IsBounded disk (codes "d/a.css") 10 (ap (λ r. r.err) css_read)

escape_html-Shows_example :
    Shows (escape_html (codes "<a href='x'>&")) (shown (codes "<a href='x'>&"))
escape_html-Shows_example = escape_html-Shows (codes "<a href='x'>&")

name_valid : valid_include_name (codes "nav.html") ≡ true
unfolding valid_include_name
name_valid = refl

of-append_example :
    of ((codes "a.b/c" ++ b'.' ∷ b'C' ∷ codes "SS") ++ codes "?v=1.2")
    ≡ find table (lower (b'C' ∷ codes "SS"))
of-append_example =
    of-append (codes "a.b/c") b'C' (codes "SS") (codes "?v=1.2")
      (refl, (refl, (refl, (refl, (refl, tt))))) (refl, (refl, (refl, tt)))
      (unfold take_until in refl)

css_type : of (codes "a.b/c.CSS?v=1.2") ≡ codes "text/css"
unfolding of extension after_dot take_until find lower
css_type = refl

normalize_mount-IsPrefix_example :
    IsPrefix (normalize_mount (codes "assets//"))
    × ((s : Bytes) → IsPrefix s → normalize_mount s ≡ s)
normalize_mount-IsPrefix_example = normalize_mount-IsPrefix (codes "assets//")

normalized : normalize_mount (codes "assets//") ≡ codes "/assets"
unfolding normalize_mount
normalized = refl
