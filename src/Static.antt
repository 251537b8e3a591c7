-- ===== src/Static.antt =====
-- Static directory mounts: include/vermell/util/static_files.h. The file system is a parameter, and
-- a file's times do not change between two calls of one request.
pub mod Serving
pub mod Mounts
use vermell.Http.Decode.{percent_decode}
use vermell.Http.Response.{
  Response, WireResponse, new_response, status, content_type, set_body, set, to_wire,
}
use vermell.Mime.{of}
use vermell.Prelude.Decimal.{decimal}
use vermell.Rendering.{
  FileSystem, Stat, ReadErr, ok, not_found, forbidden, too_large, io_error, ReadResult,
  read_bounded, is_within, is_regular, is_directory,
}
use vermell.Params.{ℤ}
use vermell.Params.Numbers.{print}
use vermell.Prelude.{
  ℕ, zero, suc, ◌+◌, ◌-◌, ◌*◌, ◌/◌, ◌%◌, ◌^◌, ◌≤◌, ◌<◌, min, max, String, ◌≡◌, refl, sym, ap, ◌∙◌,
  subst, ◌≡⟨◌⟩◌, ◌∎, ◌≢◌, ◌↔◌, ◌⊎◌, inl, inr, Bool, true, false, not, ◌&&◌, ◌||◌, Option, none,
  some, List, [], ◌∷◌, ◌++◌, map, append-nil, append_assoc, arith, ltb, leb, ◌==◌, within,
  if◌then◌else◌, ltb→lt, lt→ltb, leb→le, le→leb, ==_iff, tests, Bool-cases, Option-cases, same_iff,
  same_refl, strip_prefix-append, strip_prefix-eq_some, Lacks, cut-eq_some, cut-append, cut-eq_none,
  split_on-eq_singleton, split_on-append, split_on-Lacks, join_with-cons, join_with-split_on, Bytes,
  IsBytes, codes, same, is_empty, strip_prefix, is_some, has_byte, push_front, cut, cut_seq,
  cons_head, split_on, lines_of, drop_while, drop_while_end, join_with, ◌>>=◌, ◌>>◌, guard,
  >>=-eq-some, guard-eq-some, some-injective, length, take, drop, all, any, drop_last, get_last?,
  length-append, take-length_append, drop-length_append, length-drop, length-take_le,
  take-append-drop, All, All-append, All-append_left, All-append_right, take-append_of_length,
  drop-append_of_length, strip_prefix-none_local, cut_seq-eq_some, length-cut_seq,
}

pub record StaticOptions : Type 0 where
  pub index : Bytes
  pub spa : Bool
  pub cache : Bool
  pub max_age : ℤ
  pub max_file_bytes : ℕ

pub record StaticMount : Type 0 where
  pub mount : Bytes
  pub dir : Bytes
  pub options : StaticOptions

abbrev pub slash : Bytes
slash = b'/' ∷ []

abbrev pub is_slash : ℕ → Bool
is_slash c = c == b'/'

-- The last slashes go, but not the first byte.
abbrev pub drop_last_slashes : Bytes → Bytes
drop_last_slashes [] = []
drop_last_slashes (c ∷ s) = c ∷ drop_while_end is_slash s

abbrev pub add_first_slash : Bytes → Bytes
add_first_slash [] = slash
add_first_slash (c ∷ s) = if is_slash c then c ∷ s else b'/' ∷ c ∷ s

unfoldable pub normalize_mount : Bytes → Bytes
unfolding drop_while_end
normalize_mount mount = drop_last_slashes (add_first_slash mount)

abbrev pub new_mount : Bytes → Bytes → StaticOptions → StaticMount
new_mount mount dir options = record {
  mount = normalize_mount mount;
  dir = if is_empty dir then b'.' ∷ [] else dir;
  options = options;
}

-- What stands behind the mount: nothing, or a slash first.
abbrev pub at_boundary : Option Bytes → Bool
at_boundary none = false
at_boundary (some []) = true
at_boundary (some (c ∷ s)) = is_slash c

unfoldable pub under_mount : StaticMount → Bytes → Bool
under_mount m decoded =
    if same m.mount slash then true else at_boundary (strip_prefix m.mount decoded)

abbrev pub covers : StaticMount → Bytes → Bool
covers m request_path = under_mount m (percent_decode request_path)

abbrev pub dotdot : Bytes
dotdot = b'.' ∷ b'.' ∷ []

unfoldable pub has_parent_segment : Bytes → Bool
has_parent_segment rel = any (λ segment. same segment dotdot) (split_on b'/' rel)

abbrev pub is_blank : ℕ → Bool
is_blank c = c == b' ' || c == b'\t'

-- Without a prefix `W/`.
abbrev pub drop_weak : Bytes → Bytes
drop_weak item = elim (strip_prefix (codes "W/") item) [ none ↦ item | some rest ↦ rest ]

abbrev pub item_matches : Bytes → Bytes → Bool
item_matches etag segment =
    let item = drop_while_end is_blank (drop_while is_blank segment) in
    same item (b'*' ∷ []) || same (drop_weak item) etag

unfoldable pub etag_matches : Bytes → Bytes → Bool
etag_matches header etag =
    if is_empty header || is_empty etag
    then false
    else any (item_matches etag) (split_on b',' header)

unfoldable pub make_etag : Stat → Bytes
make_etag st = (b'"' ∷ decimal st.size) ++ (b'-' ∷ decimal st.mtime) ++ (b'"' ∷ [])

unfoldable pub cache_control_header : StaticOptions → Bytes
cache_control_header options =
    if not options.cache then [] else codes "public, max-age=" ++ print options.max_age

abbrev pub set_unless_empty : Bytes → Bytes → Response → Response
set_unless_empty name value r = if is_empty value then r else set name value r

-- The response that `respond` writes.
unfoldable pub response_of : ℕ → Bytes → Bytes → Bytes → Bytes → Response
response_of code body mime cache_control etag = set_unless_empty (codes "ETag") etag (
    set_unless_empty (codes "Cache-Control") cache_control
      (set_body body (content_type mime (status code new_response))))

abbrev pub respond : ℕ → Bytes → Bytes → Bytes → Bytes → WireResponse
respond code body mime cache_control etag = to_wire (response_of code body mime cache_control etag)

abbrev pub plain : Bytes
plain = codes "text/plain"

-- A plain error.
abbrev pub refuse : ℕ → String → WireResponse
refuse code text = respond code (codes text) plain [] []

abbrev pub refuse_path : WireResponse
refuse_path = refuse 403 "Vermell: forbidden path"

unfoldable pub file_etag : FileSystem → Bytes → Bytes
file_etag fs full = elim (fs.stat full) [
  | none ↦ []
  | some st ↦ if is_regular st.kind then make_etag st else []
]

-- The answer to a file that was read.
unfoldable pub answer : FileSystem → StaticOptions → Bytes → Bytes → Bytes → WireResponse
answer fs options full if_none_match data_ =
    let etag = file_etag fs full in
    let cache_control = cache_control_header options in
    if options.cache
    then if not (is_empty etag) && etag_matches if_none_match etag
      then respond 304 [] (of full) cache_control etag
      else respond 200 data_ (of full) cache_control etag
    else respond 200 data_ (of full) cache_control []

-- `serve_path` of a result of `read_bounded`, with the answer to a missing file.
unfoldable pub serve_read :
    FileSystem → StaticOptions → Bytes → Bytes → WireResponse → ReadResult → WireResponse
serve_read fs options full if_none_match missing read = elim read.err [
  | ok ↦ answer fs options full if_none_match read.data_
  | not_found ↦ missing
  | forbidden ↦ refuse_path
  | too_large ↦ refuse 413 "Vermell: file too large"
  | io_error ↦ refuse 500 "Vermell: internal error"
]

abbrev pub not_found_page : WireResponse
not_found_page = refuse 404 "Vermell: 404 Not Found"

-- `serve_path` without the fallback.
unfoldable pub serve_file : FileSystem → StaticOptions → Bytes → Bytes → WireResponse
serve_file fs options full if_none_match =
    serve_read fs options full if_none_match not_found_page
      (read_bounded fs full options.max_file_bytes)

unfoldable pub end_with_slash : Bytes → Bytes
end_with_slash [] = slash
end_with_slash (c ∷ []) = if is_slash c then c ∷ [] else c ∷ slash
end_with_slash (c ∷ d ∷ s) = c ∷ end_with_slash (d ∷ s)

-- `dir_.empty() ? "." : dir_`
abbrev pub base_dir : StaticMount → Bytes
base_dir m = if is_empty m.dir then b'.' ∷ [] else m.dir

unfoldable pub serve_index : FileSystem → StaticMount → Bytes → WireResponse
serve_index fs m if_none_match =
    let full = end_with_slash (base_dir m) ++ m.options.index in
    if not (is_within fs (base_dir m) full)
    then refuse_path
    else serve_file fs m.options full if_none_match

-- `serve_path` with the fallback: the index, where `spa` is set.
unfoldable pub serve_path : FileSystem → StaticMount → Bytes → Bytes → WireResponse
serve_path fs m full if_none_match =
    let fallback = serve_index fs m if_none_match in
    serve_read fs m.options full if_none_match (if m.options.spa then fallback else not_found_page)
      (read_bounded fs full m.options.max_file_bytes)

-- The path below the mount, without the slashes at its ends.
unfoldable pub relative : StaticMount → Bytes → Bytes
relative m decoded =
    let rest = if same m.mount slash then decoded else drop (length m.mount) decoded in
    drop_while_end is_slash (drop_while is_slash rest)

abbrev pub stat_is_dir : Option Stat → Bool
stat_is_dir none = false
stat_is_dir (some st) = is_directory st.kind

-- The file for a path below the mount: the index, where that is a directory.
unfoldable pub file_for : FileSystem → StaticMount → Bytes → Bytes
file_for fs m rel =
    let full = end_with_slash (base_dir m) ++ rel in
    if stat_is_dir (fs.stat full) || is_empty rel
    then end_with_slash full ++ m.options.index
    else full

abbrev pub is_read : Bytes → Bool
is_read method = same method (codes "GET") || same method (codes "HEAD")

unfoldable pub serve_relative : FileSystem → StaticMount → Bytes → Bytes → WireResponse
serve_relative fs m rel if_none_match =
    if has_byte 0 rel || has_parent_segment rel
    then refuse_path
    else if not (is_within fs (base_dir m) (file_for fs m rel))
    then refuse_path
    else serve_path fs m (file_for fs m rel) if_none_match

unfoldable pub serve : FileSystem → StaticMount → Bytes → Bytes → Bytes → Option WireResponse
serve fs m request_path method if_none_match =
    let decoded = percent_decode request_path in
    if not (is_read method)
    then none
    else if not (under_mount m decoded)
    then none
    else some (serve_relative fs m (relative m decoded) if_none_match)
