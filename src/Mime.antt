-- ===== src/Mime.antt =====
-- The MIME registry of include/vermell/util/mime_types.hpp. No key of the table stands twice.
pub mod Lookup
use vermell.Http.Text.{lower}
use vermell.Prelude.{
  ℕ, zero, suc, ◌+◌, ◌-◌, ◌*◌, ◌/◌, ◌%◌, ◌^◌, ◌≤◌, ◌<◌, min, max, String, ◌≡◌, refl, sym, ap, ◌∙◌,
  subst, ◌≡⟨◌⟩◌, ◌∎, ◌≢◌, ◌↔◌, ◌⊎◌, inl, inr, Bool, true, false, not, ◌&&◌, ◌||◌, Option, none,
  some, List, [], ◌∷◌, ◌++◌, map, append-nil, append_assoc, arith, ltb, leb, ◌==◌, within,
  if◌then◌else◌, ltb→lt, lt→ltb, leb→le, le→leb, ==_iff, tests, Bool-cases, Option-cases, same_iff,
  same_refl, strip_prefix-append, strip_prefix-eq_some, Lacks, cut-eq_some, cut-append, cut-eq_none,
  split_on-eq_singleton, split_on-append, split_on-Lacks, join_with-cons, join_with-split_on, Bytes,
  IsBytes, codes, same, is_empty, strip_prefix, is_some, has_byte, push_front, cut, cut_seq,
  cons_head, split_on, lines_of, drop_while, drop_while_end, join_with, ◌>>=◌, ◌>>◌, guard,
  >>=-eq-some, guard-eq-some, some-injective, length, take, drop, all, any, drop_last, get_last?,
  length-append, take-length_append, drop-length_append, length-drop, length-take_le,
  take-append-drop, All, All-append, All-append_left, All-append_right, take-append_of_length,
  drop-append_of_length, strip_prefix-none_local, cut_seq-eq_some, length-cut_seq,
}

abbrev pub default_mime : Bytes
default_mime = codes "application/octet-stream"

abbrev pub table : List (String × String)
table =
    ("html", "text/html")
    ∷ ("htm", "text/html")
    ∷ ("css", "text/css")
    ∷ ("csv", "text/csv")
    ∷ ("tsv", "text/tab-separated-values")
    ∷ ("txt", "text/plain")
    ∷ ("md", "text/markdown")
    ∷ ("markdown", "text/markdown")
    ∷ ("rtf", "text/rtf")
    ∷ ("vtt", "text/vtt")
    ∷ ("yaml", "application/yaml")
    ∷ ("yml", "application/yaml")
    ∷ ("xml", "application/xml")
    ∷ ("json", "application/json")
    ∷ ("map", "application/json")
    ∷ ("jsonld", "application/ld+json")
    ∷ ("ndjson", "application/x-ndjson")
    ∷ ("js", "application/javascript")
    ∷ ("mjs", "application/javascript")
    ∷ ("cjs", "application/javascript")
    ∷ ("pdf", "application/pdf")
    ∷ ("epub", "application/epub+zip")
    ∷ ("zip", "application/zip")
    ∷ ("gz", "application/gzip")
    ∷ ("bz2", "application/x-bzip2")
    ∷ ("zst", "application/zstd")
    ∷ ("tar", "application/x-tar")
    ∷ ("rar", "application/vnd.rar")
    ∷ ("7z", "application/x-7z-compressed")
    ∷ ("wasm", "application/wasm")
    ∷ ("bin", "application/octet-stream")
    ∷ ("sql", "application/sql")
    ∷ ("graphql", "application/graphql")
    ∷ ("jar", "application/java-archive")
    ∷ ("apk", "application/vnd.android.package-archive")
    ∷ ("doc", "application/msword")
    ∷ ("docx", "application/vnd.openxmlformats-officedocument.wordprocessingml.document")
    ∷ ("docm", "application/vnd.ms-word.document.macroEnabled.12")
    ∷ ("xls", "application/vnd.ms-excel")
    ∷ ("xlsx", "application/vnd.openxmlformats-officedocument.spreadsheetml.sheet")
    ∷ ("xlsm", "application/vnd.ms-excel.sheet.macroEnabled.12")
    ∷ ("ppt", "application/vnd.ms-powerpoint")
    ∷ ("pptx", "application/vnd.openxmlformats-officedocument.presentationml.presentation")
    ∷ ("pptm", "application/vnd.ms-powerpoint.presentation.macroEnabled.12")
    ∷ ("odt", "application/vnd.oasis.opendocument.text")
    ∷ ("ods", "application/vnd.oasis.opendocument.spreadsheet")
    ∷ ("odp", "application/vnd.oasis.opendocument.presentation")
    ∷ ("png", "image/png")
    ∷ ("jpg", "image/jpeg")
    ∷ ("jpeg", "image/jpeg")
    ∷ ("gif", "image/gif")
    ∷ ("apng", "image/apng")
    ∷ ("bmp", "image/bmp")
    ∷ ("svg", "image/svg+xml")
    ∷ ("ico", "image/x-icon")
    ∷ ("webp", "image/webp")
    ∷ ("avif", "image/avif")
    ∷ ("heic", "image/heic")
    ∷ ("heif", "image/heif")
    ∷ ("jxl", "image/jxl")
    ∷ ("tif", "image/tiff")
    ∷ ("tiff", "image/tiff")
    ∷ ("mp3", "audio/mpeg")
    ∷ ("aac", "audio/aac")
    ∷ ("flac", "audio/flac")
    ∷ ("m4a", "audio/mp4")
    ∷ ("mid", "audio/midi")
    ∷ ("midi", "audio/midi")
    ∷ ("wav", "audio/wav")
    ∷ ("ogg", "audio/ogg")
    ∷ ("opus", "audio/opus")
    ∷ ("mp4", "video/mp4")
    ∷ ("m4v", "video/mp4")
    ∷ ("webm", "video/webm")
    ∷ ("ogv", "video/ogg")
    ∷ ("avi", "video/x-msvideo")
    ∷ ("mkv", "video/x-matroska")
    ∷ ("3gp", "video/3gpp")
    ∷ ("ts", "video/mp2t")
    ∷ ("mpeg", "video/mpeg")
    ∷ ("mpg", "video/mpeg")
    ∷ ("mov", "video/quicktime")
    ∷ ("ttf", "font/ttf")
    ∷ ("otf", "font/otf")
    ∷ ("woff", "font/woff")
    ∷ ("woff2", "font/woff2")
    ∷ ("eot", "application/vnd.ms-fontobject")
    ∷ ("ics", "text/calendar")
    ∷ ("sh", "application/octet-stream")
    ∷ ("php", "application/octet-stream")
    ∷ ("ps", "application/postscript")
    ∷ ("eps", "application/postscript")
    ∷ []

unfoldable pub find : List (String × String) → Bytes → Bytes
unfolding same
find [] ext = default_mime
find ((key, mime) ∷ rest) ext = if same (codes key) ext then codes mime else find rest ext

-- `find_first_of`: what stands before the first byte that passes the test; all where none does.
unfoldable pub take_until : (ℕ → Bool) → Bytes → Bytes
take_until p [] = []
take_until p (c ∷ s) = let rest = take_until p s in if p c then [] else c ∷ rest

-- `find_last_of`: what stands behind the last dot.
unfoldable pub after_dot : Bytes → Option Bytes
after_dot [] = none
after_dot (c ∷ s) = elim (after_dot s) [
  | some ext ↦ some ext
  | none ↦ if c == b'.' then some s else none
]

abbrev pub is_slash : ℕ → Bool
is_slash c = c == b'/' || c == b'\\'

abbrev pub is_suffix_mark : ℕ → Bool
is_suffix_mark c = c == b'?' || c == b'#'

-- The extension of a file name; empty, or a dot that a slash follows, is none.
unfoldable pub extension : Bytes → Option Bytes
extension filename = elim (after_dot filename) [
  | none ↦ none
  | some ext ↦ if is_empty ext || any is_slash ext then none else some ext
]

unfoldable pub of : Bytes → Bytes
of path = elim (extension (take_until is_suffix_mark path)) [
  | none ↦ default_mime
  | some ext ↦ find table (lower ext)
]

unfoldable pub is_textual : Bytes → Bool
unfolding same strip_prefix
is_textual mime_type =
    is_some (strip_prefix (codes "text/") mime_type)
    || same mime_type (codes "application/json")
    || same mime_type (codes "application/javascript")
    || same mime_type (codes "application/xml")
