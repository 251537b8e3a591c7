-- ===== src/Query/Pages.antt =====
-- The responders of `Query` that read a file (sources/request/routes.cpp). The policy that `execute`
-- gives to the query is an argument here, and so is the parent of a path.
use vermell.Mime.{of}
use vermell.Params.{ℤ, pos, negsuc, prepare, to_int}
use vermell.Prelude.{ℕ, Bytes}
use vermell.Query.{Query}
use vermell.Rendering.{FileSystem}
use vermell.Templates.{RenderSecurity, Page, Variables, basic_read, compose, render}

-- `toInt` of a status; a page's status has no sign.
abbrev status_number : ℤ → ℕ
status_number (pos n) = n
status_number (negsuc n) = 0

-- A page with its type, as the response.
abbrev respond_page : Bytes → (Query → Query) → Page → Query → Query
respond_page type callback (data_, status) q =
    callback (record q { last = prepare data_ type q.headers (status_number (to_int status)) })

module _ (fs : FileSystem) (sec : RenderSecurity) where
  unfoldable read_file_as : Bytes → Bytes → (Query → Query) → Query → Query
  read_file_as path type callback q = respond_page type callback (basic_read fs sec path) q

  unfoldable read_file : Bytes → (Query → Query) → Query → Query
  read_file path callback q = respond_page (of path) callback (basic_read fs sec path) q

  abbrev file : Bytes → (Query → Query) → Query → Query
  file = read_file

  unfoldable compose_file : (Bytes → Bytes) → Bytes → ℤ → (Query → Query) → Query → Query
  compose_file parent_path path reserve callback q =
      respond_page (of path) callback (compose fs parent_path sec path reserve) q

  -- The response has the status 200 whatever the file is.
  unfoldable render_file : Bytes → Variables → Query → Query
  render_file path variables q = record q {
    last = prepare (render fs sec variables path) (of path) q.headers 200;
  }
