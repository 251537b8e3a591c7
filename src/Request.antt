-- ===== src/Request.antt =====
-- `Request` of include/vermell/request/request.hpp and sources/request/request.cpp: what a handler
-- sees of a message.
pub mod Consuming
use vermell.Http.Decode.{parse_query}
use vermell.Http.Message.{Message, param_in}
use vermell.Http.Multipart.{UploadedFile, Multipart, parse_multipart}
use vermell.Params.{drop_space, drop_cr}
use vermell.Prelude.{
  ℕ, zero, suc, ◌+◌, ◌-◌, ◌*◌, ◌/◌, ◌%◌, ◌^◌, ◌≤◌, ◌<◌, min, max, String, ◌≡◌, refl, sym, ap, ◌∙◌,
  subst, ◌≡⟨◌⟩◌, ◌∎, ◌≢◌, ◌↔◌, ◌⊎◌, inl, inr, Bool, true, false, not, ◌&&◌, ◌||◌, Option, none,
  some, List, [], ◌∷◌, ◌++◌, map, append-nil, append_assoc, arith, ltb, leb, ◌==◌, within,
  if◌then◌else◌, ltb→lt, lt→ltb, leb→le, le→leb, ==_iff, tests, Bool-cases, Option-cases, same_iff,
  same_refl, strip_prefix-append, strip_prefix-eq_some, Lacks, cut-eq_some, cut-append, cut-eq_none,
  split_on-eq_singleton, split_on-append, split_on-Lacks, join_with-cons, join_with-split_on, Bytes,
  IsBytes, codes, same, is_empty, strip_prefix, is_some, has_byte, push_front, cut, cut_seq,
  cons_head, split_on, lines_of, drop_while, drop_while_end, join_with, ◌>>=◌, ◌>>◌, guard,
  >>=-eq-some, guard-eq-some, some-injective, length, take, drop, all, any, drop_last, get_last?,
  length-append, take-length_append, drop-length_append, length-drop, length-take_le,
  take-append-drop, All, All-append, All-append_left, All-append_right, take-append_of_length,
  drop-append_of_length, strip_prefix-none_local, cut_seq-eq_some, length-cut_seq,
}

pub record Request : Type 0 where
  pub route : Bytes
  pub parameters : List (Bytes × Bytes)
  pub headers : List (Bytes × Bytes)
  pub body : Bytes
  pub content_type : Bytes
  pub files : List UploadedFile

abbrev pub new_request : Request
new_request = record {
  route = [];
  parameters = [];
  headers = [];
  body = [];
  content_type = [];
  files = [];
}

abbrev pub not_params : Bytes
not_params = codes "___s"

abbrev pub clear_parameters : Request → Request
clear_parameters r = record r { parameters = []; route = [] }

-- The assignments before the first test of `consume`.
abbrev pub copy_message : Message → Request → Request
copy_message m r = record (clear_parameters r) {
  headers = m.headers;
  body = m.body;
  content_type = m.content_type;
  files = [];
}

abbrev pub take_query : Bytes → Request → Request
take_query text r = if is_empty text then r else record r { parameters = parse_query text }

abbrev pub take_form : Message → Request → Request
take_form m r = elim (param_in m.content_type_params (codes "boundary")) [
  | none ↦ r
  | some boundary ↦
      let form = parse_multipart m.body boundary in
      if is_empty m.body then r else record r { parameters = form.fields; files = form.files }
]

abbrev pub take_data : Bytes → Request → Request
take_data body r = record r {
  parameters = r.parameters ++ (codes "data", if is_empty body then codes "null" else body) ∷ [];
}

unfoldable pub consume : Message → Request → Request
unfolding same parse_query param_in parse_multipart
consume m r =
    let copied = copy_message m r in
    if same m.method (codes "GET")
    then take_query m.query copied
    else if is_empty m.content_type
    then copied
    else if same m.content_type (codes "application/x-www-form-urlencoded")
    then take_query m.body copied
    else if same m.content_type (codes "multipart/form-data")
    then take_form m copied
    else take_data m.body copied

-- The first upload of a form field; a null pointer is `none`.
unfoldable pub file_in : List UploadedFile → Bytes → Option UploadedFile
unfolding same
file_in [] field = none
file_in (f ∷ files) field = if same f.field field then some f else file_in files field

abbrev pub file : Request → Bytes → Option UploadedFile
file r field = file_in r.files field

abbrev pub set_parameters : List (Bytes × Bytes) → Request → Request
set_parameters params r = record r { parameters = params }

abbrev pub set_headers : List (Bytes × Bytes) → Request → Request
set_headers headers r = record r { headers = headers }

abbrev pub set_body : Bytes → Request → Request
set_body body r = record r { body = body }

abbrev pub set_content_type : Bytes → Request → Request
set_content_type content_type r = record r { content_type = content_type }

abbrev pub set_files : List UploadedFile → Request → Request
set_files files r = record r { files = files }

unfoldable pub set_raw_parameters_data : Bytes → Request → Request
unfolding same parse_query
set_raw_parameters_data raw r =
    if is_empty raw || same raw not_params
    then r
    else record r { parameters = r.parameters ++ parse_query raw }

-- One line of a raw header block: a name that is empty, or no colon, adds nothing.
abbrev pub raw_header : Bytes → List (Bytes × Bytes)
raw_header line = elim (cut b':' (drop_cr line)) [
  | none ↦ []
  | some ([], value) ↦ []
  | some (c ∷ name, value) ↦ (c ∷ name, drop_space value) ∷ []
]

unfoldable pub raw_headers : List Bytes → List (Bytes × Bytes)
unfolding cut drop_cr
raw_headers [] = []
raw_headers (line ∷ lines) = raw_header line ++ raw_headers lines

unfoldable pub set_raw_headers_data : Bytes → Request → Request
unfolding raw_headers lines_of
set_raw_headers_data raw r = record r { headers = r.headers ++ raw_headers (lines_of b'\n' raw) }
