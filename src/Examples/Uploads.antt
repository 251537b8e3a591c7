-- ===== src/Examples/Uploads.antt =====
-- Uploads: the multipart part of include/vermell/http/message.hpp.
use vermell.Http.Multipart.{
  skip_end, add_part, crlf_lines, strip_end, UploadedFile, parse_multipart, parse_parts, save_to,
  delimiter_of,
}
use vermell.Http.Multipart.Files.{IsSafeForm, IsSafeFile, parse_multipart-IsSafeForm}
use vermell.Http.Multipart.Save.{IsJailed, save_to-cases, save_to-file}
use vermell.Http.Multipart.Fuel.{parse_parts_fuel}
use vermell.Http.Text.{iequals, trim}
use vermell.Prelude.{
  ◌≡◌, refl, ◌⊎◌, Bool, true, false, [], ◌∷◌, ◌++◌, arith, Bytes, codes, has_byte, cut, split_on,
}

abbrev form_body : Bytes
form_body =
    codes
      "--B\r\nContent-Disposition: form-data; name=\"a\"\r\n\r\n1\r\n--B\r\nContent-Disposition: form-data; filename=\"x/../up.txt\"; name=\"f\"\r\n\r\nhi\r\n--B--\r\n"

abbrev upload : UploadedFile
upload = record {
  field = codes "f";
  filename = codes "up.txt";
  mime = codes "application/octet-stream";
  content = codes "hi";
}

-- Both parts are found, and the file loses its directories.
form_parsed :
    parse_multipart form_body (codes "B")
    ≡ record { fields = (codes "a", codes "1") ∷ []; files = upload ∷ [] }
unfolding parse_multipart skip_end add_part crlf_lines strip_end cut iequals trim
form_parsed = refl

parse_multipart-IsSafeForm_example : IsSafeForm (parse_multipart form_body (codes "B"))
parse_multipart-IsSafeForm_example = parse_multipart-IsSafeForm form_body (codes "B")

parse_parts_fuel_example :
    parse_parts 200 (delimiter_of (codes "B")) form_body
    ≡ parse_parts 300 (delimiter_of (codes "B")) form_body
parse_parts_fuel_example =
    parse_parts_fuel 200 300 (codes "B") form_body (omega arith) (omega arith)

-- A disk that keeps its last write.
abbrev write_last : Bytes → Bytes → Bytes × Bytes → Bool × (Bytes × Bytes)
write_last path content _ = (true, (path, content))

abbrev no_write : Bytes × Bytes
no_write = ([], [])

save_to-cases_example :
    (IsJailed (codes "up/a")
      × (save_to write_last upload (codes "up/a") no_write
          ≡ write_last (codes "up/a") upload.content no_write))
    ⊎ ((¬ IsJailed (codes "up/a"))
        × (save_to write_last upload (codes "up/a") no_write ≡ (false, no_write)))
save_to-cases_example = save_to-cases write_last upload (codes "up/a") no_write

escape_refused : save_to write_last upload (codes "up/../../a") no_write ≡ (false, no_write)
unfolding save_to
escape_refused = refl

up_segments : IsJailed (codes "up")
up_segments = record {
  nonempty = ground arith;
  not_root = λ rest e. ground arith;
  not_share = λ rest e. ground arith;
  not_drive = λ c rest letter e. ground arith;
  segments = unfold split_on in ((ground arith, unfold has_byte in refl), tt);
}

upload-IsSafeFile : IsSafeFile upload
upload-IsSafeFile = record {
  field = refl;
  safe = record {
    nonempty = refl;
    bare = (refl, (refl, (refl, (refl, (refl, (refl, tt))))));
    printable = (refl, (refl, (refl, (refl, (refl, (refl, tt))))));
    not_dot = ground arith;
    not_dotdot = ground arith;
  };
  typed = refl;
}

save_to-file_example :
    save_to write_last upload (codes "up" ++ b'/' ∷ upload.filename) no_write
    ≡ write_last (codes "up" ++ b'/' ∷ upload.filename) upload.content no_write
save_to-file_example =
    save_to-file write_last upload (codes "up") no_write up_segments upload-IsSafeFile
