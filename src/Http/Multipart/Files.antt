-- ===== src/Http/Multipart/Files.antt =====
-- The names of uploaded files (include/vermell/http/message.hpp): `sanitize_filename`, and the paths
-- that `save_to` accepts.
use vermell.Http.Multipart.{
  UploadedFile, Multipart, is_slash, dotdot, after_slash, base_name, is_control, is_untrusted,
  sanitize_filename, disposition_param, PartHead, add_named, add_part, split_part, strip_end,
  part_head, crlf_lines, no_head, parse_parts, parse_multipart, empty_form, skip_end, delimiter_of,
}
use vermell.Prelude.{
  ℕ, zero, suc, ◌≡◌, refl, ap, ◌∙◌, subst, ◌≢◌, inl, inr, Bool, false, none, some, [], ◌∷◌, arith,
  if◌then◌else◌, Bool-cases, Option-cases, same_iff, Bytes, codes, same, is_empty, strip_prefix,
  cut_seq, some-injective, length, any, All,
}

-- A bare file name: not empty, no directory, no control character.
pub record IsSafeName (name : Bytes) : Type 0 where
  pub nonempty : is_empty name ≡ false
  pub bare : All (λ c. is_slash c ≡ false) name
  pub printable : All (λ c. is_control c ≡ false) name
  pub not_dot : name ≢ b'.' ∷ []
  pub not_dotdot : name ≢ dotdot

after_slash-none : (s : Bytes) → after_slash s ≡ none → All (λ c. is_slash c ≡ false) s
unfolding after_slash
after_slash-none [] h = tt
after_slash-none (c ∷ s) h = elim (Option-cases (after_slash s)) [
  | inl missing ↦ elim (Bool-cases (is_slash c)) [
    | inl slash ↦ ground (arith, missing, slash)
    | inr other ↦ (other, after_slash-none s missing)
  ]
  | inr (rest, found) ↦ ground (arith, found)
]

after_slash-bare :
    (s : Bytes) {rest : Bytes} → after_slash s ≡ some rest → All (λ c. is_slash c ≡ false) rest
unfolding after_slash
after_slash-bare [] h = cc
after_slash-bare (c ∷ s) h = elim (Option-cases (after_slash s)) [
  | inl missing ↦ elim (Bool-cases (is_slash c)) [
    | inl slash ↦
        let e = some-injective (rw (missing, slash) at h) in
        subst (All (λ c. is_slash c ≡ false)) e (after_slash-none s missing)
    | inr other ↦ ground (arith, missing, other)
  ]
  | inr (rest, found) ↦
      let e = some-injective (rw found at h) in after_slash-bare s (found ∙ ap some e)
]

base_name-bare : (s : Bytes) → All (λ c. is_slash c ≡ false) (base_name s)
unfolding base_name
base_name-bare s = elim (Option-cases (after_slash s)) [
  | inl missing ↦ rw (missing, All) (after_slash-none s missing)
  | inr (rest, found) ↦ rw (found, All) (after_slash-bare s found)
]

any-false : (p : ℕ → Bool) (s : Bytes) → any p s ≡ false → All (λ c. p c ≡ false) s
any-false p [] h = tt
any-false p (c ∷ s) h = (ground arith, any-false p s (ground arith))

same-false : (a b : Bytes) → same a b ≡ false → a ≢ b
same-false a b h e = cc ((same_iff a b).1 e, h)

IsSafeName-base :
    (s : Bytes) → is_untrusted s ≡ false → All (λ c. is_slash c ≡ false) s → IsSafeName s
IsSafeName-base s h bare = record {
  nonempty = ground arith;
  bare = bare;
  printable = any-false is_control s (ground arith);
  not_dot = same-false s (b'.' ∷ []) (ground arith);
  not_dotdot = same-false s dotdot (ground arith);
}

-- A name that is not refused is safe.
sanitize_filename-IsSafeName :
    (s : Bytes) → is_empty (sanitize_filename s) ≡ false → IsSafeName (sanitize_filename s)
unfolding sanitize_filename
sanitize_filename-IsSafeName s h = elim (Bool-cases (is_untrusted (base_name s))) [
  | inl refused ↦ absurd (cc (rw refused at h))
  | inr trusted ↦ rw trusted (IsSafeName-base (base_name s) trusted (base_name-bare s))
]

-- A file has a field, a safe name and a type.
pub record IsSafeFile (file : UploadedFile) : Type 0 where
  pub field : is_empty file.field ≡ false
  pub safe : IsSafeName file.filename
  pub typed : is_empty file.mime ≡ false

pub record IsSafeForm (form : Multipart) : Type 0 where
  pub fields : All (λ f. is_empty f.0 ≡ false) form.fields
  pub files : All IsSafeFile form.files

typed :
    (mime : Bytes)
    → is_empty (if is_empty mime then codes "application/octet-stream" else mime) ≡ false
typed [] = refl
typed (c ∷ s) = refl

add_named-IsSafeForm :
    (h : PartHead) (content : Bytes) (form : Multipart)
    → IsSafeForm form
    → IsSafeForm (add_named h content form)
unfolding add_named
add_named-IsSafeForm h content form safe =
    elim (Bool-cases (is_empty (disposition_param h.disposition (codes "name")))) [
      | inl unnamed ↦ rw unnamed safe
      | inr named ↦
          let filename = disposition_param h.disposition (codes "filename") in
          elim (Bool-cases (is_empty (sanitize_filename filename))) [
            | inl plain ↦
                rw (named, plain) (record { fields = (named, safe.fields); files = safe.files })
            | inr file ↦
                rw (named, file)
                  (record {
                    fields = safe.fields;
                    files = (
                      record {
                        field = named;
                        safe = sanitize_filename-IsSafeName filename file;
                        typed = typed h.mime;
                      },
                      safe.files,
                    );
                  })
          ]
    ]

add_part-IsSafeForm :
    (part : Bytes) (form : Multipart) → IsSafeForm form → IsSafeForm (add_part part form)
unfolding add_part
add_part-IsSafeForm part form safe =
    let pair = split_part (strip_end part) in
    add_named-IsSafeForm (part_head (crlf_lines pair.0) no_head) pair.1 form safe

empty-IsSafeForm : IsSafeForm empty_form
empty-IsSafeForm = record { fields = tt; files = tt }

parse_parts-IsSafeForm :
    (fuel : ℕ) (delimiter body : Bytes) → IsSafeForm (parse_parts fuel delimiter body)
unfolding parse_parts strip_prefix
parse_parts-IsSafeForm zero delimiter body = empty-IsSafeForm
parse_parts-IsSafeForm (suc fuel) delimiter body =
    elim (Option-cases (strip_prefix (codes "--") body)) [
      | inr (rest, closing) ↦ rw closing empty-IsSafeForm
      | inl going ↦ elim (Option-cases (cut_seq delimiter (skip_end body))) [
        | inl missing ↦ rw (going, missing) empty-IsSafeForm
        | inr ((part, rest), found) ↦
            rw (going, found)
              (add_part-IsSafeForm part (parse_parts fuel delimiter rest)
                (parse_parts-IsSafeForm fuel delimiter rest))
      ]
    ]

-- Whatever the body and the boundary are: every field that `parse_multipart` returns is named, and
-- every file has a field name, a type, and a name that is not empty, is neither `.` nor `..` and has
-- no slash of either kind and no control character.
pub parse_multipart-IsSafeForm :
    (body boundary : Bytes) → IsSafeForm (parse_multipart body boundary)
unfolding parse_multipart
parse_multipart-IsSafeForm body [] = empty-IsSafeForm
parse_multipart-IsSafeForm body (c ∷ boundary) =
    elim (Option-cases (cut_seq (delimiter_of (c ∷ boundary)) body)) [
      | inl missing ↦ rw missing empty-IsSafeForm
      | inr ((before, rest), found) ↦
          rw found (parse_parts-IsSafeForm (suc (length rest)) (delimiter_of (c ∷ boundary)) rest)
    ]
