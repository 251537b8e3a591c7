-- ===== src/Http/Multipart.antt =====
-- Uploaded files and multipart/form-data bodies of include/vermell/http/message.hpp. The loop of
-- `parse_multipart` runs on fuel, its body's length; a position is what is left of the body there.
pub mod Files
pub mod Fuel
pub mod Save
use vermell.Http.Text.{trim, iequals}
use vermell.Prelude.{
  ℕ, zero, suc, ◌+◌, ◌-◌, ◌*◌, ◌/◌, ◌%◌, ◌^◌, ◌≤◌, ◌<◌, min, max, String, ◌≡◌, refl, sym, ap, ◌∙◌,
  subst, ◌≡⟨◌⟩◌, ◌∎, ◌≢◌, ◌↔◌, ◌⊎◌, inl, inr, Bool, true, false, not, ◌&&◌, ◌||◌, Option, none,
  some, List, [], ◌∷◌, ◌++◌, map, append-nil, append_assoc, arith, ltb, leb, ◌==◌, within,
  if◌then◌else◌, ltb→lt, lt→ltb, leb→le, le→leb, ==_iff, tests, Bool-cases, Option-cases, same_iff,
  same_refl, strip_prefix-append, strip_prefix-eq_some, Lacks, cut-eq_some, cut-append, cut-eq_none,
  split_on-eq_singleton, split_on-append, split_on-Lacks, join_with-cons, join_with-split_on, Bytes,
  IsBytes, codes, same, is_empty, strip_prefix, is_some, has_byte, push_front, cut, cut_seq,
  cons_head, split_on, lines_of, drop_while, drop_while_end, join_with, ◌>>=◌, ◌>>◌, guard,
  >>=-eq-some, guard-eq-some, some-injective, length, take, drop, all, any, drop_last, get_last?,
  length-append, take-length_append, drop-length_append, length-drop, length-take_le,
  take-append-drop, All, All-append, All-append_left, All-append_right, take-append_of_length,
  drop-append_of_length, strip_prefix-none_local, cut_seq-eq_some, length-cut_seq,
}

pub record UploadedFile : Type 0 where
  pub field : Bytes
  pub filename : Bytes
  pub mime : Bytes
  pub content : Bytes

abbrev pub size : UploadedFile → ℕ
size file = length file.content

pub record Multipart : Type 0 where
  pub fields : List (Bytes × Bytes)
  pub files : List UploadedFile

abbrev pub is_slash : ℕ → Bool
is_slash c = c == b'/' || c == b'\\'

-- The segments between slashes of either kind. The source does not visit an empty last segment; an
-- empty segment passes its tests.
unfoldable pub segments : Bytes → List Bytes
segments [] = [] ∷ []
segments (c ∷ s) = let rest = segments s in if is_slash c then [] ∷ rest else cons_head c rest

abbrev pub dotdot : Bytes
dotdot = b'.' ∷ b'.' ∷ []

abbrev pub is_letter : ℕ → Bool
is_letter c = within b'A' b'Z' c || within b'a' b'z' c

abbrev pub has_drive : Bytes → Bool
has_drive (c ∷ d ∷ s) = d == b':' && is_letter c
has_drive _ = false

abbrev pub is_absolute : Bytes → Bool
is_absolute [] = false
is_absolute (c ∷ s) = is_slash c || has_drive (c ∷ s)

abbrev pub is_bad_segment : Bytes → Bool
is_bad_segment segment = same segment dotdot || has_byte 0 segment

unfoldable pub refuses : Bytes → Bool
unfolding same has_byte segments
refuses path =
    if is_empty path || is_absolute path then true else any is_bad_segment (segments path)

-- The write to disk, `std::ofstream`, is a parameter: the new state and whether the stream is good.
unfoldable pub save_to {ℓ} :
    {Disk : Type ℓ}
    → (Bytes → Bytes → Disk → Bool × Disk)
    → UploadedFile
    → Bytes
    → Disk
    → Bool × Disk
unfolding refuses
save_to write file path disk = if refuses path then (false, disk) else write path file.content disk

-- What stands after the last slash; all of a name that has none.
unfoldable pub after_slash : Bytes → Option Bytes
after_slash [] = none
after_slash (c ∷ s) = elim (after_slash s) [
  | some rest ↦ some rest
  | none ↦ if is_slash c then some s else none
]

unfoldable pub base_name : Bytes → Bytes
unfolding after_slash
base_name name = elim (after_slash name) [ none ↦ name | some rest ↦ rest ]

abbrev pub is_control : ℕ → Bool
is_control c = ltb c 0x20 || c == 0x7f

abbrev pub is_untrusted : Bytes → Bool
is_untrusted name =
    is_empty name || same name (b'.' ∷ []) || same name dotdot || any is_control name

unfoldable pub sanitize_filename : Bytes → Bytes
unfolding base_name same
sanitize_filename name = if is_untrusted (base_name name) then [] else base_name name

abbrev pub quoted : Bytes → Bytes
quoted rest = elim (cut b'"' rest) [ none ↦ [] | some (value, _) ↦ value ]

unfoldable pub param_value : Bytes → List Bytes → Bytes
param_value key [] = []
param_value key (param ∷ params) = elim (strip_prefix (key ++ b'=' ∷ b'"' ∷ []) (trim param)) [
  | some rest ↦ quoted rest
  | none ↦ param_value key params
]

unfoldable pub disposition_param : Bytes → Bytes → Bytes
unfolding param_value split_on
disposition_param disposition key = param_value key (split_on b';' disposition)

-- The lines between CRLFs.
unfoldable pub crlf_lines : Bytes → List Bytes
crlf_lines [] = [] ∷ []
crlf_lines (c ∷ []) = (c ∷ []) ∷ []
crlf_lines (c ∷ d ∷ s) =
    let skipped = crlf_lines s in
    let rest = crlf_lines (d ∷ s) in
    if c == b'\r' && d == b'\n' then [] ∷ skipped else cons_head c rest

-- `disposition` and `part_mime`
pub record PartHead : Type 0 where
  pub disposition : Bytes
  pub mime : Bytes

abbrev pub part_field : Bytes → PartHead → PartHead
part_field line h = elim (cut b':' line) [
  | none ↦ h
  | some (name, value) ↦
      if iequals (trim name) (codes "Content-Disposition")
      then record h { disposition = trim value }
      else if iequals (trim name) (codes "Content-Type")
      then record h { mime = trim value }
      else h
]

unfoldable pub part_head : List Bytes → PartHead → PartHead
part_head [] h = h
part_head (line ∷ lines) h = part_head lines (part_field line h)

abbrev pub no_head : PartHead
no_head = record { disposition = []; mime = [] }

-- Without the line end before the next delimiter.
unfoldable pub strip_end : Bytes → Bytes
strip_end [] = []
strip_end (c ∷ []) = if c == b'\n' then [] else c ∷ []
strip_end (c ∷ d ∷ []) =
    if c == b'\r' && d == b'\n' then [] else if d == b'\n' then c ∷ [] else c ∷ d ∷ []
strip_end (c ∷ d ∷ e ∷ s) = c ∷ strip_end (d ∷ e ∷ s)

abbrev pub split_part : Bytes → Bytes × Bytes
split_part part = elim (cut_seq (codes "\r\n\r\n") part) [ none ↦ (part, []) | some pair ↦ pair ]

unfoldable pub add_named : PartHead → Bytes → Multipart → Multipart
unfolding disposition_param sanitize_filename
add_named h content form =
    let name = disposition_param h.disposition (codes "name") in
    let filename = sanitize_filename (disposition_param h.disposition (codes "filename")) in
    if is_empty name
    then form
    else if is_empty filename
    then record form { fields = (name, content) ∷ form.fields }
    else record form {
      files =
          record {
            field = name;
            filename = filename;
            mime = if is_empty h.mime then codes "application/octet-stream" else h.mime;
            content = content;
          }
          ∷ form.files;
    }

-- One part, put before those that follow it.
unfoldable pub add_part : Bytes → Multipart → Multipart
unfolding add_named part_head
add_part part form =
    let (headers, content) = split_part (strip_end part) in
    add_named (part_head (crlf_lines headers) no_head) content form

-- The line end after a delimiter.
unfoldable pub skip_end : Bytes → Bytes
skip_end [] = []
skip_end (c ∷ []) = if c == b'\n' then [] else c ∷ []
skip_end (c ∷ d ∷ s) =
    if c == b'\r' && d == b'\n' then s else if c == b'\n' then d ∷ s else c ∷ d ∷ s

abbrev pub empty_form : Multipart
empty_form = record { fields = []; files = [] }

-- The loop of `parse_multipart`, behind a delimiter.
unfoldable pub parse_parts : ℕ → Bytes → Bytes → Multipart
parse_parts zero delimiter body = empty_form
parse_parts (suc fuel) delimiter body = elim (strip_prefix (codes "--") body) [
  | some _ ↦ empty_form
  | none ↦ elim (cut_seq delimiter (skip_end body)) [
    | none ↦ empty_form
    | some (part, rest) ↦ add_part part (parse_parts fuel delimiter rest)
  ]
]

abbrev pub delimiter_of : Bytes → Bytes
delimiter_of boundary = codes "--" ++ boundary

unfoldable pub parse_multipart : Bytes → Bytes → Multipart
unfolding parse_parts cut_seq
parse_multipart body boundary =
    if is_empty boundary then empty_form else elim (cut_seq (delimiter_of boundary) body) [
      | none ↦ empty_form
      | some (_, rest) ↦ parse_parts (suc (length rest)) (delimiter_of boundary) rest
    ]
