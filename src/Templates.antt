-- ===== src/Templates.antt =====
-- Files, templates and their variables: include/vermell/util/basic_render.h, ver_reader.h,
-- data_render.h, notify.h and render_security.h. A position is a number here, as in the source; the
-- parent of a path (std::filesystem) is a parameter.
pub mod Composing
use vermell.Params.{ℤ, pos, negsuc}
use vermell.Prelude.{
  ℕ, zero, suc, ◌+◌, ◌-◌, ◌*◌, ◌/◌, ◌%◌, ◌^◌, ◌≤◌, ◌<◌, min, max, String, ◌≡◌, refl, sym, ap, ◌∙◌,
  subst, ◌≡⟨◌⟩◌, ◌∎, ◌≢◌, ◌↔◌, ◌⊎◌, inl, inr, Bool, true, false, not, ◌&&◌, ◌||◌, Option, none,
  some, List, [], ◌∷◌, ◌++◌, map, append-nil, append_assoc, arith, ltb, leb, ◌==◌, within,
  if◌then◌else◌, ltb→lt, lt→ltb, leb→le, le→leb, ==_iff, tests, Bool-cases, Option-cases, if-true,
  if-false, same_iff, same_refl, strip_prefix-append, strip_prefix-eq_some, Lacks, cut-eq_some,
  cut-append, cut-eq_none, split_on-eq_singleton, split_on-append, split_on-Lacks, join_with-cons,
  join_with-split_on, Bytes, IsBytes, codes, same, is_empty, strip_prefix, is_some, has_byte,
  push_front, cut, cut_seq, cons_head, split_on, lines_of, drop_while, drop_while_end, join_with,
  ◌>>=◌, ◌>>◌, guard, >>=-eq-some, guard-eq-some, some-injective, length, take, drop, all, any,
  drop_last, get_last?, length-append, take-length_append, drop-length_append, length-drop,
  length-take_le, take-append-drop, All, All-append, All-append_left, All-append_right,
  take-append_of_length, drop-append_of_length, strip_prefix-none_local, cut_seq-eq_some,
  length-cut_seq,
}
use vermell.Rendering.{
  FileSystem, ReadErr, ReadResult, status_of, read_bounded, is_within, valid_include_name,
  escape_html,
}

pub record RenderSecurity : Type 0 where
  pub root : Bytes
  pub max_file_bytes : ℕ

abbrev pub dot : Bytes
dot = codes "."

abbrev pub effective_root : RenderSecurity → Bytes
effective_root sec = if is_empty sec.root then dot else sec.root

-- `notify::noPath`
abbrev pub no_path : Bytes → Bytes
no_path path = codes "Can't get path file. '" ++ (escape_html path ++ codes "',  ")

-- `notify_html`
abbrev pub no_file : Bytes → Bytes
no_file name =
    codes "Vermell: error no se puedo encontrar el archivo "
    ++ (escape_html name ++ (codes " <br/> Vermell: error cant get the file  " ++ escape_html name))

abbrev pub bad_name : Bytes → Bytes
bad_name name =
    codes "Vermell: nombre de modulo no permitido "
    ++ (escape_html name ++ (codes " <br/> Vermell: module name not allowed " ++ escape_html name))

abbrev pub no_safe : Bytes
no_safe =
    codes
      "Vermell: error de sintaxis no <strong>'];'</strong>  <br/> Vermell: sintax error whiout closing the tag with <strong>'];'</strong>  "

abbrev pub no_safe_data : Bytes
no_safe_data =
    codes
      "Vermell: error de sintaxis no <strong>']]'</strong>  <br/> Vermell: sintax error whiout closing the tag with <strong>']]'</strong>  "

-- A page and its status.
abbrev pub Page : Type 0
Page = Bytes × Bytes

abbrev pub ok_status : Bytes
ok_status = codes "200"

abbrev pub read_page : Bytes → ReadResult → Page
read_page path read = elim read.err [
  | ReadErr.ok ↦ (read.data_, ok_status)
  | ReadErr.not_found ↦ (no_path path, codes "404")
  | ReadErr.too_large ↦ (codes "Vermell: the requested file exceeds the allowed size", codes "413")
  | ReadErr.forbidden ↦ (no_path path, codes "403")
  | ReadErr.io_error ↦ (codes "Vermell: internal error while reading the file", codes "500")
]

-- `BasicRead::processing`
unfoldable pub basic_read : FileSystem → RenderSecurity → Bytes → Page
basic_read fs sec path =
    if not (is_within fs (effective_root sec) path)
    then (no_path path, codes "403")
    else read_page path (read_bounded fs path sec.max_file_bytes)

-- Two bytes that open a block, and two that close it.
pub record Marks : Type 0 where
  pub opening : Bytes
  pub closing : Bytes

abbrev pub include_marks : Marks
include_marks = record { opening = codes "#["; closing = codes "];" }

abbrev pub data_marks : Marks
data_marks = record { opening = codes "[["; closing = codes "]]" }

-- The last opening before the first closing, and that closing.
unfoldable pub scan_marks : Marks → ℕ → Option ℕ → Bytes → Option ℕ × Option ℕ
unfolding same
scan_marks m it opened [] = (opened, none)
scan_marks m it opened (a ∷ []) = (opened, none)
scan_marks m it opened (a ∷ b ∷ s) =
    let opened' = if same (a ∷ b ∷ []) m.opening then some it else opened in
    let rest = scan_marks m (it + 1) opened' (b ∷ s) in
    if same (a ∷ b ∷ []) m.closing then (opened', some it) else rest

pub data Block : Type 0 where
  no_block : Block
  unclosed : Block
  block : (before name after : Bytes) → Block

-- `substr` at a pair of positions
abbrev pub cut_block : Bytes → Option ℕ × Option ℕ → Block
cut_block body (none, none) = no_block
cut_block body (none, some closed) = unclosed
cut_block body (some opened, none) = unclosed
cut_block body (some opened, some closed) =
    if ltb closed opened
    then unclosed
    else block (take opened body) (take (closed - opened - 2) (drop (opened + 2) body))
        (drop (closed + 2) body)

unfoldable pub find_block : Marks → Bytes → Block
find_block m body = cut_block body (scan_marks m 0 none body)

-- `VerReader::Tag`, with what comes with it.
pub data Tag : Type 0 where
  done : Tag
  composed : Bytes → Tag
  unclosed_tag : Tag
  refused_name : Bytes → Tag
  missing : Bytes → Tag
  too_large_module : Tag

abbrev pub join_module : Bytes → Bytes → Bytes → ReadResult → Tag
join_module before name after read = elim read.err [
  | ReadErr.ok ↦ composed (before ++ (read.data_ ++ after))
  | ReadErr.too_large ↦ too_large_module
  | ReadErr.not_found ↦ missing name
  | ReadErr.forbidden ↦ missing name
  | ReadErr.io_error ↦ missing name
]

abbrev pub module_path : Bytes → Bytes → Bytes
module_path folder name = folder ++ b'/' ∷ name

unfoldable pub expand_block : FileSystem → RenderSecurity → Bytes → Block → Tag
expand_block fs sec folder no_block = done
expand_block fs sec folder unclosed = unclosed_tag
expand_block fs sec folder (block before name after) =
    if not (valid_include_name name)
    then refused_name name
    else if not (is_within fs folder (module_path folder name))
    then refused_name name
    else join_module before name after
        (read_bounded fs (module_path folder name) sec.max_file_bytes)

-- `VerReader::tratament`
abbrev pub tratament : FileSystem → RenderSecurity → Bytes → Bytes → Tag
tratament fs sec folder body = expand_block fs sec folder (find_block include_marks body)

abbrev pub after_tag : RenderSecurity → Bytes → (Bytes → Page) → Tag → Page
after_tag sec body more done = (body, ok_status)
after_tag sec body more (composed out) =
    let rest = more out in
    if ltb sec.max_file_bytes (length out)
    then (codes "Vermell: the composed page exceeds the allowed size", codes "413")
    else rest
after_tag sec body more unclosed_tag = (no_safe, codes "400")
after_tag sec body more (refused_name name) = (bad_name name, codes "403")
after_tag sec body more too_large_module =
    (codes "Vermell: a module exceeds the allowed size", codes "413")
after_tag sec body more (missing name) = (no_file name, codes "404")

-- The loop over the passes.
unfoldable pub compose_passes : FileSystem → RenderSecurity → Bytes → ℕ → Bytes → Page
compose_passes fs sec folder zero body = (body, ok_status)
compose_passes fs sec folder (suc passes) body =
    after_tag sec body (compose_passes fs sec folder passes) (tratament fs sec folder body)

abbrev pub max_passes : ℕ
max_passes = 64

abbrev pub passes_of : ℤ → ℕ
passes_of (pos n) = min n max_passes
passes_of (negsuc n) = 0

abbrev pub folder_of : Bytes → Bytes
folder_of folder = if is_empty folder then dot else folder

abbrev pub compose_read : FileSystem → RenderSecurity → Bytes → Bytes → ℕ → ReadResult → Page
compose_read fs sec path folder passes read = elim read.err [
  | ReadErr.ok ↦ compose_passes fs sec folder passes read.data_
  | ReadErr.not_found ↦ (no_path path, status_of ReadErr.not_found)
  | ReadErr.forbidden ↦ (no_path path, status_of ReadErr.forbidden)
  | ReadErr.too_large ↦ (no_path path, status_of ReadErr.too_large)
  | ReadErr.io_error ↦ (no_path path, status_of ReadErr.io_error)
]

-- `VerReader::processing`, without what it does on an exception.
unfoldable pub compose : FileSystem → (Bytes → Bytes) → RenderSecurity → Bytes → ℤ → Page
compose fs parent_path sec path reserve =
    if not (is_within fs (effective_root sec) path)
    then (no_path path, codes "403")
    else compose_read fs sec path (folder_of (parent_path path)) (passes_of reserve)
        (read_bounded fs path sec.max_file_bytes)

abbrev pub Variables : Type 0
Variables = List (Bytes × Bytes)

-- The first variable of that name.
unfoldable pub value_of : Bytes → Variables → Bytes
unfolding same
value_of name [] = codes "error"
value_of name ((k, v) ∷ variables) = if same k name then v else value_of name variables

abbrev pub fill_block : Variables → Bytes → Block → Bytes
fill_block variables body no_block = body
fill_block variables body unclosed = no_safe_data
fill_block variables body (block before name after) =
    before ++ (escape_html (value_of name variables) ++ after)

-- `body_tratament`
abbrev pub fill_first : Variables → Bytes → Bytes
fill_first variables body = fill_block variables body (find_block data_marks body)

unfoldable pub fill_rounds : Variables → ℕ → Bytes → Bytes
fill_rounds variables zero body = body
fill_rounds variables (suc n) body = fill_rounds variables n (fill_first variables body)

abbrev pub render_read : Variables → Bytes → ReadResult → Bytes
render_read variables path read = elim read.err [
  | ReadErr.ok ↦ fill_rounds variables (length variables) read.data_
  | ReadErr.not_found ↦ no_file path
  | ReadErr.forbidden ↦ no_file path
  | ReadErr.too_large ↦ no_file path
  | ReadErr.io_error ↦ no_file path
]

-- `dataRender::render`
unfoldable pub render : FileSystem → RenderSecurity → Variables → Bytes → Bytes
render fs sec variables path =
    if not (is_within fs (effective_root sec) path)
    then no_file path
    else render_read variables path (read_bounded fs path sec.max_file_bytes)
