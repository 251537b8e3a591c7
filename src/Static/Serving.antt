-- ===== src/Static/Serving.antt =====
-- `StaticMount::serve` of include/vermell/util/static_files.h: the answers it can give.
use vermell.Http.Decode.{percent_decode}
use vermell.Http.Response.{WireResponse}
use vermell.Mime.{of}
use vermell.Rendering.{
  FileSystem, ReadErr, ok, not_found, forbidden, too_large, io_error, ReadResult, read_bounded,
  is_within,
}
use vermell.Static.{
  StaticOptions, StaticMount, under_mount, has_parent_segment, etag_matches, cache_control_header,
  respond, refuse, refuse_path, not_found_page, file_etag, answer, serve_read, serve_file, base_dir,
  end_with_slash, serve_index, serve_path, relative, file_for, is_read, serve_relative, serve,
}
use vermell.Prelude.{
  ◌≡◌, refl, ap, ◌⊎◌, inl, inr, Bool, true, false, ◌&&◌, ◌||◌, none, some, [], ◌∷◌, ◌++◌,
  if◌then◌else◌, Bool-cases, Bytes, is_empty, has_byte,
}

abbrev sent_etag : FileSystem → StaticOptions → Bytes → Bytes
sent_etag fs options full = if options.cache then file_etag fs full else []

-- The content of the file at `full`, with its type, or that it is the one that the client has.
pub data IsFileAnswer (fs : FileSystem) (options : StaticOptions) (full if_none_match : Bytes)
    : WireResponse → Type 0 where
  not_modified :
      {w : WireResponse}
      → options.cache ≡ true
      → etag_matches if_none_match (file_etag fs full) ≡ true
      → w ≡ respond 304 [] (of full) (cache_control_header options) (file_etag fs full)
      → IsFileAnswer fs options full if_none_match w
  content :
      {w : WireResponse} (data_ : Bytes)
      → read_bounded fs full options.max_file_bytes ≡ record { err = ok; data_ = data_ }
      → (options.cache && etag_matches if_none_match (file_etag fs full)) ≡ false
      → w ≡ respond 200 data_ (of full) (cache_control_header options) (sent_etag fs options full)
      → IsFileAnswer fs options full if_none_match w

-- A plain error with one of the texts of the source.
abbrev pub IsRefusal : WireResponse → Type 0
IsRefusal w =
    (w ≡ refuse_path)
    ⊎ ((w ≡ not_found_page)
        ⊎ ((w ≡ refuse 413 "Vermell: file too large") ⊎ (w ≡ refuse 500 "Vermell: internal error")))

-- A refusal, or the answer to a file in the jail of the mount.
abbrev pub IsJailedAnswer : FileSystem → StaticMount → Bytes → WireResponse → Type 0
IsJailedAnswer fs m if_none_match w =
    IsRefusal w
    ⊎ ((full : Bytes) × (is_within fs (base_dir m) full ≡ true)
        × IsFileAnswer fs m.options full if_none_match w)

etag_matches-nonempty :
    (header etag : Bytes) → etag_matches header etag ≡ true → is_empty etag ≡ false
unfolding etag_matches
etag_matches-nonempty [] etag h = cc
etag_matches-nonempty (c ∷ s) [] h = cc
etag_matches-nonempty (c ∷ s) (d ∷ t) h = refl

answer_other :
    (fs : FileSystem) (options : StaticOptions) (full if_none_match data_ : Bytes)
    → options.cache ≡ true
    → etag_matches if_none_match (file_etag fs full) ≡ false
    → answer fs options full if_none_match data_
      ≡ respond 200 data_ (of full) (cache_control_header options) (sent_etag fs options full)
unfolding answer
answer_other fs options full if_none_match data_ on other =
    elim (Bool-cases (is_empty (file_etag fs full))) [
      | inl e ↦ rw (on, e) refl
      | inr e ↦ rw (on, other, e) refl
    ]

answer-IsFileAnswer :
    (fs : FileSystem) (options : StaticOptions) (full if_none_match data_ : Bytes)
    → read_bounded fs full options.max_file_bytes ≡ record { err = ok; data_ = data_ }
    → IsFileAnswer fs options full if_none_match (answer fs options full if_none_match data_)
unfolding answer
answer-IsFileAnswer fs options full if_none_match data_ read = elim (Bool-cases options.cache) [
  | inr off ↦ content data_ read (rw off refl) (rw off refl)
  | inl on ↦ elim (Bool-cases (etag_matches if_none_match (file_etag fs full))) [
    | inl matched ↦
        let tagged = etag_matches-nonempty if_none_match (file_etag fs full) matched in
        not_modified on matched (rw (on, tagged, matched) refl)
    | inr other ↦
        content data_ read (rw (on, other) refl)
          (answer_other fs options full if_none_match data_ on other)
  ]
]

ReadErr-cases :
    (r : ReadResult)
    → (r.err ≡ ok)
      ⊎ ((r.err ≡ not_found) ⊎ ((r.err ≡ forbidden) ⊎ ((r.err ≡ too_large) ⊎ (r.err ≡ io_error))))
ReadErr-cases r = cases r.err
  where
    cases :
        (e : ReadErr)
        → (e ≡ ok) ⊎ ((e ≡ not_found) ⊎ ((e ≡ forbidden) ⊎ ((e ≡ too_large) ⊎ (e ≡ io_error))))
    cases ok = inl refl
    cases not_found = inr (inl refl)
    cases forbidden = inr (inr (inl refl))
    cases too_large = inr (inr (inr (inl refl)))
    cases io_error = inr (inr (inr (inr refl)))

-- A result of a read, given the answer to a missing file.
serve_read-IsJailedAnswer :
    (fs : FileSystem) (m : StaticMount) (full if_none_match : Bytes) (missing : WireResponse)
    → is_within fs (base_dir m) full ≡ true
    → IsJailedAnswer fs m if_none_match missing
    → IsJailedAnswer fs m if_none_match (
        serve_read fs m.options full if_none_match missing
          (read_bounded fs full m.options.max_file_bytes))
unfolding serve_read
serve_read-IsJailedAnswer fs m full if_none_match missing jailed fallback =
    let r = read_bounded fs full m.options.max_file_bytes in
    elim (ReadErr-cases r) [
      | inl e ↦ rw e (
          inr (
            full,
            jailed,
            answer-IsFileAnswer fs m.options full if_none_match r.data_
                (ap (λ x. record { err = x; data_ = r.data_ }) e),
          ))
      | inr (inl e) ↦ rw e fallback
      | inr (inr (inl e)) ↦ rw e (inl (inl refl))
      | inr (inr (inr (inl e))) ↦ rw e (inl (inr (inr (inl refl))))
      | inr (inr (inr (inr e))) ↦ rw e (inl (inr (inr (inr refl))))
    ]

serve_file-IsJailedAnswer :
    (fs : FileSystem) (m : StaticMount) (full if_none_match : Bytes)
    → is_within fs (base_dir m) full ≡ true
    → IsJailedAnswer fs m if_none_match (serve_file fs m.options full if_none_match)
unfolding serve_file
serve_file-IsJailedAnswer fs m full if_none_match jailed =
    serve_read-IsJailedAnswer fs m full if_none_match not_found_page jailed (inl (inr (inl refl)))

serve_index-IsJailedAnswer :
    (fs : FileSystem) (m : StaticMount) (if_none_match : Bytes)
    → IsJailedAnswer fs m if_none_match (serve_index fs m if_none_match)
unfolding serve_index
serve_index-IsJailedAnswer fs m if_none_match =
    let full = end_with_slash (base_dir m) ++ m.options.index in
    elim (Bool-cases (is_within fs (base_dir m) full)) [
      | inl jailed ↦ rw jailed (serve_file-IsJailedAnswer fs m full if_none_match jailed)
      | inr escapes ↦ rw escapes (inl (inl refl))
    ]

serve_path-IsJailedAnswer :
    (fs : FileSystem) (m : StaticMount) (full if_none_match : Bytes)
    → is_within fs (base_dir m) full ≡ true
    → IsJailedAnswer fs m if_none_match (serve_path fs m full if_none_match)
unfolding serve_path
serve_path-IsJailedAnswer fs m full if_none_match jailed =
    serve_read-IsJailedAnswer fs m full if_none_match _ jailed (fallback m.options.spa)
  where
    fallback :
        (spa : Bool)
        → IsJailedAnswer fs m if_none_match
            (if spa then serve_index fs m if_none_match else not_found_page)
    fallback true = serve_index-IsJailedAnswer fs m if_none_match
    fallback false = inl (inr (inl refl))

serve_relative-IsJailedAnswer :
    (fs : FileSystem) (m : StaticMount) (rel if_none_match : Bytes)
    → IsJailedAnswer fs m if_none_match (serve_relative fs m rel if_none_match)
unfolding serve_relative
serve_relative-IsJailedAnswer fs m rel if_none_match =
    elim (Bool-cases (has_byte 0 rel || has_parent_segment rel)) [
      | inl bad ↦ rw bad (inl (inl refl))
      | inr good ↦ elim (Bool-cases (is_within fs (base_dir m) (file_for fs m rel))) [
        | inl jailed ↦
            rw (good, jailed)
              (serve_path-IsJailedAnswer fs m (file_for fs m rel) if_none_match jailed)
        | inr escapes ↦ rw (good, escapes) (inl (inl refl))
      ]
    ]

-- Whatever the file system, the mount and the request are: `serve` answers exactly the GET and HEAD
-- requests whose decoded path is under the mount; its answer is one of four plain errors, or that of
-- a file inside the mount's directory: 304 where caching is on and the client's tag matches the
-- file's, else 200 with what `read_bounded` read of it, its type and the caching headers.
pub serve-IsJailed :
    (fs : FileSystem) (m : StaticMount) (request_path method if_none_match : Bytes)
    → ((serve fs m request_path method if_none_match ≡ none)
        × ((is_read method && under_mount m (percent_decode request_path)) ≡ false))
      ⊎ ((w : WireResponse) × (serve fs m request_path method if_none_match ≡ some w)
          × ((is_read method && under_mount m (percent_decode request_path)) ≡ true)
          × IsJailedAnswer fs m if_none_match w)
unfolding serve
serve-IsJailed fs m request_path method if_none_match = elim (Bool-cases (is_read method)) [
  | inr other ↦ inl (rw other (refl, refl))
  | inl read ↦ elim (Bool-cases (under_mount m (percent_decode request_path))) [
    | inr outside ↦ inl (rw (read, outside) (refl, refl))
    | inl under ↦
        rw (read, under)
          (inr (
            _,
            refl,
            refl,
            serve_relative-IsJailedAnswer fs m (relative m (percent_decode request_path))
                if_none_match,
          ))
  ]
]
