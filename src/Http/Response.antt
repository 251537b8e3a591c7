-- ===== src/Http/Response.antt =====
-- The response builder of include/vermell/http/response.hpp. `std::move`d fields are values; a
-- status code is a natural number, since no caller of the repository passes a negative one.
pub mod Headers
pub mod Wire
use vermell.Http.Text.{iequals}
use vermell.Prelude.Decimal.{decimal}
use vermell.Prelude.{
  ℕ, zero, suc, ◌+◌, ◌-◌, ◌*◌, ◌/◌, ◌%◌, ◌^◌, ◌≤◌, ◌<◌, min, max, String, ◌≡◌, refl, sym, ap, ◌∙◌,
  subst, ◌≡⟨◌⟩◌, ◌∎, ◌≢◌, ◌↔◌, ◌⊎◌, inl, inr, Bool, true, false, not, ◌&&◌, ◌||◌, Option, none,
  some, List, [], ◌∷◌, ◌++◌, map, append-nil, append_assoc, arith, ltb, leb, ◌==◌, within,
  if◌then◌else◌, ltb→lt, lt→ltb, leb→le, le→leb, ==_iff, tests, Bool-cases, Option-cases, same_iff,
  same_refl, strip_prefix-append, strip_prefix-eq_some, Lacks, cut-eq_some, cut-append, cut-eq_none,
  split_on-eq_singleton, split_on-append, split_on-Lacks, join_with-cons, join_with-split_on, Bytes,
  IsBytes, codes, same, is_empty, strip_prefix, is_some, has_byte, push_front, cut, cut_seq,
  cons_head, split_on, lines_of, drop_while, drop_while_end, join_with, length, take, drop, all,
  any, drop_last, get_last?, length-append, take-length_append, drop-length_append, length-drop,
  length-take_le, take-append-drop, All, All-append, All-append_left, All-append_right,
}

pub record Response : Type 0 where
  pub code : ℕ
  pub headers : List (Bytes × Bytes)
  pub body : Bytes

pub record WireResponse : Type 0 where
  pub head : Bytes
  pub body : Bytes

-- `Response response;`
abbrev pub new_response : Response
new_response = record { code = 200; headers = []; body = [] }

abbrev pub is_dirty : ℕ → Bool
is_dirty c = ltb c 0x20 || c == 0x7f

-- What stands before the first control character; all of a text that has none.
unfoldable pub sanitize : Bytes → Bytes
sanitize [] = []
sanitize (c ∷ s) = let rest = sanitize s in if is_dirty c then [] else c ∷ rest

-- The loop of `set`: the first header of that name is overwritten, else one is appended.
unfoldable pub set_header : Bytes → Bytes → List (Bytes × Bytes) → List (Bytes × Bytes)
set_header name value [] = (name, value) ∷ []
set_header name value ((hname, hvalue) ∷ headers) =
    if iequals hname name
    then (hname, value) ∷ headers
    else (hname, hvalue) ∷ set_header name value headers

unfoldable pub set : Bytes → Bytes → Response → Response
unfolding sanitize set_header
set name value r =
    if is_empty (sanitize name)
    then r
    else record r { headers = set_header (sanitize name) (sanitize value) r.headers }

abbrev pub status : ℕ → Response → Response
status code r = record r { code = code }

abbrev pub content_type : Bytes → Response → Response
content_type mime r = set (codes "Content-Type") mime r

abbrev pub set_body : Bytes → Response → Response
set_body content r = record r { body = content }

unfoldable pub has : Bytes → Response → Bool
unfolding iequals
has name r = any (λ h. iequals h.0 name) r.headers

abbrev pub crlf : Bytes
crlf = b'\r' ∷ b'\n' ∷ []

abbrev reasons : List (ℕ × String)
reasons =
    (100, "Continue")
    ∷ (101, "Switching Protocols")
    ∷ (200, "OK")
    ∷ (201, "Created")
    ∷ (202, "Accepted")
    ∷ (203, "Non-Authoritative Information")
    ∷ (204, "No Content")
    ∷ (205, "Reset Content")
    ∷ (206, "Partial Content")
    ∷ (300, "Multiple Choices")
    ∷ (301, "Moved Permanently")
    ∷ (302, "Found")
    ∷ (303, "See Other")
    ∷ (304, "Not Modified")
    ∷ (307, "Temporary Redirect")
    ∷ (308, "Permanent Redirect")
    ∷ (400, "Bad Request")
    ∷ (401, "Unauthorized")
    ∷ (402, "Payment Required")
    ∷ (403, "Forbidden")
    ∷ (404, "Not Found")
    ∷ (405, "Method Not Allowed")
    ∷ (406, "Not Acceptable")
    ∷ (408, "Request Timeout")
    ∷ (409, "Conflict")
    ∷ (410, "Gone")
    ∷ (411, "Length Required")
    ∷ (413, "Payload Too Large")
    ∷ (414, "URI Too Long")
    ∷ (415, "Unsupported Media Type")
    ∷ (418, "I'm a teapot")
    ∷ (422, "Unprocessable Content")
    ∷ (429, "Too Many Requests")
    ∷ (431, "Request Header Fields Too Large")
    ∷ (500, "Internal Server Error")
    ∷ (501, "Not Implemented")
    ∷ (502, "Bad Gateway")
    ∷ (503, "Service Unavailable")
    ∷ (504, "Gateway Timeout")
    ∷ []

unfoldable pub phrase_in : List (ℕ × String) → ℕ → String
phrase_in [] code = "OK"
phrase_in ((c, phrase) ∷ rest) code = if c == code then phrase else phrase_in rest code

unfoldable pub reason : ℕ → Bytes
unfolding phrase_in
reason code = codes (phrase_in reasons code)

-- `name: value\r\n`
abbrev pub field_line : Bytes → Bytes → Bytes
field_line name value = name ++ (b':' ∷ b' ' ∷ (value ++ crlf))

unfoldable pub field_lines : List (Bytes × Bytes) → Bytes
field_lines [] = []
field_lines ((name, value) ∷ headers) = field_line name value ++ field_lines headers

-- A header that is written unless the response has one of that name.
abbrev pub default_line : Bytes → Bytes → Response → Bytes
default_line name value r = if has name r then [] else field_line name value

unfoldable pub head : Response → Bytes
unfolding reason field_lines has decimal
head r =
    codes "HTTP/1.1 "
    ++ (decimal r.code
        ++ (b' '
            ∷ (reason r.code
                ++ (crlf
                    ++ (default_line (codes "Server") (codes "Vermell") r
                        ++ (default_line (codes "Content-Type") (codes "text/plain") r
                            ++ (field_lines r.headers
                                ++ (default_line (codes "Content-Length") (decimal (length r.body))
                                      r
                                    ++ (default_line (codes "Accept-Ranges") (codes "bytes") r
                                        ++ (default_line (codes "X-Content-Type-Options")
                                              (codes "nosniff") r
                                            ++ (default_line (codes "Connection")
                                                  (codes "keep-alive") r
                                                ++ crlf)))))))))))

unfoldable pub str : Response → Bytes
str r = head r ++ r.body

-- `out.head = response.head(); out.body = response.take_body();`
abbrev pub to_wire : Response → WireResponse
to_wire r = record { head = head r; body = r.body }
