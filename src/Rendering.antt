-- ===== src/Rendering.antt =====
-- The hardening of include/vermell/util/secure_render.h: reading a file, the jail, module names and
-- HTML escaping. The system calls and std::filesystem are the fields of `FileSystem`.
pub mod Escaping
pub mod Reading
use vermell.Prelude.{
  ℕ, zero, suc, ◌+◌, ◌-◌, ◌*◌, ◌/◌, ◌%◌, ◌^◌, ◌≤◌, ◌<◌, min, max, String, ◌≡◌, refl, sym, ap, ◌∙◌,
  subst, ◌≡⟨◌⟩◌, ◌∎, ◌≢◌, ◌↔◌, ◌⊎◌, inl, inr, Bool, true, false, not, ◌&&◌, ◌||◌, Option, none,
  some, List, [], ◌∷◌, ◌++◌, map, append-nil, append_assoc, arith, ltb, leb, ◌==◌, within,
  if◌then◌else◌, ltb→lt, lt→ltb, leb→le, le→leb, ==_iff, tests, Bool-cases, Option-cases, same_iff,
  same_refl, strip_prefix-append, strip_prefix-eq_some, Lacks, cut-eq_some, cut-append, cut-eq_none,
  split_on-eq_singleton, split_on-append, split_on-Lacks, join_with-cons, join_with-split_on, Bytes,
  IsBytes, codes, same, is_empty, strip_prefix, is_some, has_byte, push_front, cut, cut_seq,
  cons_head, split_on, lines_of, drop_while, drop_while_end, join_with, ◌>>=◌, ◌>>◌, guard,
  >>=-eq-some, guard-eq-some, some-injective, length, take, drop, all, any, drop_last, get_last?,
  length-append, take-length_append, drop-length_append, length-drop, length-take_le,
  take-append-drop, All, All-append, All-append_left, All-append_right, take-append_of_length,
  drop-append_of_length, strip_prefix-none_local, cut_seq-eq_some, length-cut_seq,
}

pub data Kind : Type 0 where
  regular : Kind
  directory : Kind
  special : Kind

-- `struct stat`, as far as it is read; a time of change is in seconds, and not before 1970.
pub record Stat : Type 0 where
  pub kind : Kind
  pub size : ℕ
  pub mtime : ℕ

-- An open descriptor: what `fstat` gives, and the results of its `read` calls up to the end of the
-- file, without those that were interrupted. A failed call is `none`.
pub record OpenFile : Type 0 where
  pub fstat : Option Stat
  pub reads : List (Option Bytes)

pub record FileSystem : Type 0 where
  pub stat : Bytes → Option Stat
  pub open_nofollow : Bytes → Option OpenFile
  pub absolute : Bytes → Option Bytes
  pub weakly_canonical : Bytes → Option (List Bytes)

pub data ReadErr : Type 0 where
  ok : ReadErr
  not_found : ReadErr
  forbidden : ReadErr
  too_large : ReadErr
  io_error : ReadErr

pub record ReadResult : Type 0 where
  pub err : ReadErr
  pub data_ : Bytes

abbrev pub status_of : ReadErr → Bytes
status_of not_found = codes "404"
status_of forbidden = codes "403"
status_of too_large = codes "413"
status_of io_error = codes "500"
status_of ok = codes "200"

abbrev pub failed : ReadErr → ReadResult
failed err = record { err = err; data_ = [] }

-- The read loop: `out` is what it has read, `total` is its length.
unfoldable pub read_loop : ℕ → Bytes → List (Option Bytes) → ReadResult
read_loop max_bytes out [] = record { err = ok; data_ = out }
read_loop max_bytes out (none ∷ reads) = failed io_error
read_loop max_bytes out (some [] ∷ reads) = record { err = ok; data_ = out }
read_loop max_bytes out (some (c ∷ chunk) ∷ reads) =
    let rest = read_loop max_bytes (out ++ (c ∷ chunk)) reads in
    if ltb max_bytes (length out + length (c ∷ chunk)) then failed too_large else rest

abbrev pub is_regular : Kind → Bool
is_regular regular = true
is_regular _ = false

abbrev pub is_directory : Kind → Bool
is_directory directory = true
is_directory _ = false

-- `st.st_size > static_cast<off_t>(max_bytes)`: the cast of a size beyond 2^63 is negative.
abbrev pub exceeds : ℕ → ℕ → Bool
exceeds size max_bytes = if ltb max_bytes (2 ^ 63) then ltb max_bytes size else true

unfoldable pub read_open : ℕ → OpenFile → ReadResult
unfolding read_loop
read_open max_bytes f = elim f.fstat [
  | none ↦ failed io_error
  | some st ↦
      if not (is_regular st.kind)
      then failed forbidden
      else if exceeds st.size max_bytes
      then failed too_large
      else read_loop max_bytes [] f.reads
]

unfoldable pub read_bounded : FileSystem → Bytes → ℕ → ReadResult
unfolding read_open
read_bounded fs path max_bytes = elim (fs.open_nofollow path) [
  | none ↦ failed not_found
  | some f ↦ read_open max_bytes f
]

-- The components of `base` begin those of `target`.
unfoldable pub is_ancestor : List Bytes → List Bytes → Bool
unfolding same
is_ancestor [] target = true
is_ancestor (b ∷ base) [] = false
is_ancestor (b ∷ base) (t ∷ target) = same b t && is_ancestor base target

-- The components of a path that exists in part, symlinks resolved; an error is `none`, and so is an
-- empty path.
abbrev pub canonical : FileSystem → Bytes → Option (List Bytes)
canonical fs path = elim (fs.absolute path >>= fs.weakly_canonical) [
  | none ↦ none
  | some [] ↦ none
  | some (c ∷ components) ↦ some (c ∷ components)
]

unfoldable pub is_within : FileSystem → Bytes → Bytes → Bool
unfolding is_ancestor
is_within fs base target =
    if is_empty base || is_empty target then false else elim (canonical fs base) [
      | none ↦ false
      | some b ↦ elim (canonical fs target) [ none ↦ false | some t ↦ is_ancestor b t ]
    ]

abbrev pub is_name_byte : ℕ → Bool
is_name_byte c =
    within b'a' b'z' c
    || within b'A' b'Z' c
    || within b'0' b'9' c
    || c == b'.'
    || c == b'_'
    || c == b'-'

abbrev pub dotdot : Bytes
dotdot = b'.' ∷ b'.' ∷ []

unfoldable pub valid_include_name : Bytes → Bool
unfolding same cut_seq
valid_include_name name =
    if is_empty name || ltb 255 (length name)
    then false
    else if same name (b'.' ∷ []) || same name dotdot
    then false
    else if not (all is_name_byte name)
    then false
    else not (is_some (cut_seq dotdot name))

unfoldable pub escape_html_char : ℕ → Bytes
escape_html_char c =
    if c == b'&'
    then codes "&amp;"
    else if c == b'<'
    then codes "&lt;"
    else if c == b'>'
    then codes "&gt;"
    else if c == b'"'
    then codes "&quot;"
    else if c == b'\''
    then codes "&#39;"
    else if leb 0x20 c || c == b'\n' || c == b'\t'
    then c ∷ []
    else []

unfoldable pub escape_html : Bytes → Bytes
unfolding escape_html_char
escape_html [] = []
escape_html (c ∷ s) = escape_html_char c ++ escape_html s
