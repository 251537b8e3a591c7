-- ===== src/Http/Response/Wire.antt =====
-- The head of a response as the client reads it, line by line.
use vermell.Http.Response.{
  Response, is_dirty, reasons, phrase_in, reason, crlf, field_lines, default_line, has, head,
}
use vermell.Http.Response.Headers.{IsClean, IsCleanHeader, IsWellFormed}
use vermell.Prelude.Decimal.{digits_on, decimal, is_digit, digits_on-is_digit}
use vermell.Prelude.{
  ℕ, suc, String, ◌≡◌, refl, ap, ◌∙◌, inl, inr, true, false, not, List, [], ◌∷◌, ◌++◌, map,
  append_assoc, arith, ◌==◌, if◌then◌else◌, Bool-cases, Lacks, split_on-append, Bytes, codes,
  split_on, length, all, All, All-append,
}

-- A header line without its line end.
abbrev pub line_of : Bytes → Bytes → Bytes
line_of name value = name ++ (b':' ∷ b' ' ∷ value)

abbrev pub field_line_of : Bytes × Bytes → Bytes
field_line_of (name, value) = line_of name value

abbrev pub default_lines : Bytes → Bytes → Response → List Bytes
default_lines name value r = if has name r then [] else line_of name value ∷ []

-- The lines of the head, from the status line to the last header.
unfoldable pub head_lines : Response → List Bytes
head_lines r =
    (codes "HTTP/1.1 " ++ (decimal r.code ++ (b' ' ∷ reason r.code)))
    ∷ (default_lines (codes "Server") (codes "Vermell") r
        ++ (default_lines (codes "Content-Type") (codes "text/plain") r
            ++ (map field_line_of r.headers
                ++ (default_lines (codes "Content-Length") (decimal (length r.body)) r
                    ++ (default_lines (codes "Accept-Ranges") (codes "bytes") r
                        ++ (default_lines (codes "X-Content-Type-Options") (codes "nosniff") r
                            ++ default_lines (codes "Connection") (codes "keep-alive") r))))))

unfoldable pub terminated : List Bytes → Bytes
terminated [] = []
terminated (l ∷ ls) = l ++ (crlf ++ terminated ls)

terminated-append : (xs ys : List Bytes) → terminated (xs ++ ys) ≡ terminated xs ++ terminated ys
unfolding terminated
terminated-append [] ys = refl
terminated-append (x ∷ xs) ys = simp (terminated-append xs ys, append_assoc)

default_line-terminated :
    (name value : Bytes) (r : Response)
    → default_line name value r ≡ terminated (default_lines name value r)
unfolding terminated
default_line-terminated name value r = elim (Bool-cases (has name r)) [
  | inl e ↦ rw e refl
  | inr e ↦ rw e (simp append_assoc)
]

field_lines-terminated :
    (hs : List (Bytes × Bytes)) → field_lines hs ≡ terminated (map field_line_of hs)
unfolding field_lines terminated
field_lines-terminated [] = refl
field_lines-terminated ((n, v) ∷ hs) = rw (field_lines-terminated hs) (simp append_assoc)

-- The head is its lines, each ended by CRLF, and an empty line.
head-terminated : (r : Response) → head r ≡ terminated (head_lines r) ++ crlf
head-terminated r =
    unfold head head_lines terminated in
    simp (default_line-terminated, field_lines-terminated, terminated-append, append_assoc)

IsClean-of_all : (s : Bytes) → all (λ c. not (is_dirty c)) s ≡ true → IsClean s
IsClean-of_all [] h = tt
IsClean-of_all (c ∷ s) h = (ground arith, IsClean-of_all s (ground arith))

phrase_in-IsClean :
    (table : List (ℕ × String)) (code : ℕ)
    → All (λ p. IsClean (codes p.1)) table
    → IsClean (codes (phrase_in table code))
unfolding phrase_in
phrase_in-IsClean [] code _ = IsClean-of_all (codes "OK") refl
phrase_in-IsClean ((c, phrase) ∷ table) code (p, h) = elim (Bool-cases (c == code)) [
  | inl e ↦ rw e p
  | inr n ↦ rw n (phrase_in-IsClean table code h)
]

All-of_all :
    (table : List (ℕ × String))
    → all (λ p. all (λ c. not (is_dirty c)) (codes p.1)) table ≡ true
    → All (λ p. IsClean (codes p.1)) table
All-of_all [] h = tt
All-of_all (p ∷ table) h =
    (IsClean-of_all (codes p.1) (ground arith), All-of_all table (ground arith))

reason-IsClean : (code : ℕ) → IsClean (reason code)
unfolding reason
reason-IsClean code = phrase_in-IsClean reasons code (All-of_all reasons refl)

decimal-IsClean : (n : ℕ) → IsClean (decimal n)
unfolding decimal
decimal-IsClean n = weaken (digits_on (suc n) n) (digits_on-is_digit (suc n) n)
  where
    weaken : (s : Bytes) → All (λ c. is_digit c ≡ true) s → IsClean s
    weaken [] _ = tt
    weaken (c ∷ s) (p, h) = (ground arith, weaken s h)

append-IsClean : (a b : Bytes) → IsClean a → IsClean b → IsClean (a ++ b)
append-IsClean a b p q = All-append (λ c. is_dirty c ≡ false) a b p q

line_of-IsClean : (name value : Bytes) → IsClean name → IsClean value → IsClean (line_of name value)
line_of-IsClean name value p q = append-IsClean name (b':' ∷ b' ' ∷ value) p (refl, (refl, q))

abbrev IsCleanText : String → Type 0
IsCleanText t = all (λ c. not (is_dirty c)) (codes t) ≡ true

default_lines-IsClean :
    (name : String) (value : Bytes) (r : Response)
    → IsCleanText name
    → IsClean value
    → All IsClean (default_lines (codes name) value r)
default_lines-IsClean name value r p q = elim (Bool-cases (has (codes name) r)) [
  | inl e ↦ rw e tt
  | inr e ↦ rw e (line_of-IsClean (codes name) value (IsClean-of_all (codes name) p) q, tt)
]

default_text-IsClean :
    (name value : String) (r : Response)
    → IsCleanText name
    → IsCleanText value
    → All IsClean (default_lines (codes name) (codes value) r)
default_text-IsClean name value r p q =
    default_lines-IsClean name (codes value) r p (IsClean-of_all (codes value) q)

field_lines-IsClean :
    (hs : List (Bytes × Bytes)) → All IsCleanHeader hs → All IsClean (map field_line_of hs)
field_lines-IsClean [] _ = tt
field_lines-IsClean ((n, v) ∷ hs) ((p, q), h) = (line_of-IsClean n v p q, field_lines-IsClean hs h)

status_line-IsClean :
    (code : ℕ) → IsClean (codes "HTTP/1.1 " ++ (decimal code ++ (b' ' ∷ reason code)))
status_line-IsClean code =
    append-IsClean (codes "HTTP/1.1 ") _ (IsClean-of_all (codes "HTTP/1.1 ") refl) (
      append-IsClean (decimal code) (b' ' ∷ reason code) (decimal-IsClean code)
        (refl, reason-IsClean code))

head_lines-IsClean : (r : Response) → IsWellFormed r → All IsClean (head_lines r)
unfolding head_lines
head_lines-IsClean r w = (
  status_line-IsClean r.code,
  All-append IsClean _ _ (default_text-IsClean "Server" "Vermell" r refl refl) (
      All-append IsClean _ _ (default_text-IsClean "Content-Type" "text/plain" r refl refl) (
        All-append IsClean _ _ (field_lines-IsClean r.headers w.clean) (
          All-append IsClean _ _
            (default_lines-IsClean "Content-Length" (decimal (length r.body)) r refl
              (decimal-IsClean (length r.body)))
            (All-append IsClean _ _ (default_text-IsClean "Accept-Ranges" "bytes" r refl refl) (
              All-append IsClean _ _
                (default_text-IsClean "X-Content-Type-Options" "nosniff" r refl refl)
                (default_text-IsClean "Connection" "keep-alive" r refl refl)))))),
)

IsClean-Lacks : (s : Bytes) → IsClean s → Lacks b'\n' (s ++ b'\r' ∷ [])
IsClean-Lacks [] _ = (omega arith, tt)
IsClean-Lacks (c ∷ s) (p, h) = (ground arith, IsClean-Lacks s h)

abbrev pub with_cr : Bytes → Bytes
with_cr l = l ++ b'\r' ∷ []

split_on-terminated :
    (ls : List Bytes)
    → All IsClean ls
    → split_on b'\n' (terminated ls ++ crlf) ≡ map with_cr ls ++ (b'\r' ∷ []) ∷ [] ∷ []
unfolding terminated
split_on-terminated [] _ = unfold split_on in refl
split_on-terminated (l ∷ ls) (p, h) =
    ap (split_on b'\n') (simp append_assoc)
    ∙ split_on-append b'\n' (with_cr l) (terminated ls ++ crlf) (IsClean-Lacks l p)
    ∙ ap (◌∷◌ (with_cr l)) (split_on-terminated ls h)

-- No response splitting: a client that cuts the head at its line feeds gets exactly the status
-- line, the default headers that the response lacks and one line for each header set, each ended by
-- a carriage return, and then one empty line. So no header name or value, and no status code, can
-- add a line, end the head early or start a body.
pub split_on-head :
    (r : Response)
    → IsWellFormed r
    → split_on b'\n' (head r) ≡ map with_cr (head_lines r) ++ (b'\r' ∷ []) ∷ [] ∷ []
split_on-head r w =
    ap (split_on b'\n') (head-terminated r)
    ∙ split_on-terminated (head_lines r) (head_lines-IsClean r w)
