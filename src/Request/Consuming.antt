-- ===== src/Request/Consuming.antt =====
-- `Request::consume` of sources/request/request.cpp.
use vermell.Request.{Request, consume, copy_message, take_query, take_form}
use vermell.Http.Message.{Message, param_in}
use vermell.Http.Multipart.Files.{IsSafeFile, parse_multipart-IsSafeForm}
use vermell.Prelude.{
  ◌≡◌, refl, inl, inr, [], ◌∷◌, Bool-cases, Option-cases, Bytes, codes, same, is_empty, All,
}

-- A request that shows nothing but the message, and whose uploads are safe.
pub record Reflects (m : Message) (r : Request) : Type 0 where
  pub headers : r.headers ≡ m.headers
  pub body : r.body ≡ m.body
  pub content_type : r.content_type ≡ m.content_type
  pub files : All IsSafeFile r.files
  pub route : r.route ≡ []

copied-Reflects : (m : Message) (r : Request) → Reflects m (copy_message m r)
copied-Reflects m r = record {
  headers = refl;
  body = refl;
  content_type = refl;
  files = tt;
  route = refl;
}

take_query-Reflects :
    (m : Message) (text : Bytes) (r : Request) → Reflects m r → Reflects m (take_query text r)
take_query-Reflects m [] r h = h
take_query-Reflects m (c ∷ s) r h = record {
  headers = h.headers;
  body = h.body;
  content_type = h.content_type;
  files = h.files;
  route = h.route;
}

take_form-Reflects : (m : Message) (r : Request) → Reflects m r → Reflects m (take_form m r)
take_form-Reflects m r h = elim (Option-cases (param_in m.content_type_params (codes "boundary"))) [
  | inl missing ↦ rw (missing, take_form) h
  | inr (boundary, found) ↦ elim (Bool-cases (is_empty m.body)) [
    | inl empty ↦ rw (found, take_form, empty) h
    | inr some_body ↦
        rw (found, take_form, some_body)
          (record {
            headers = h.headers;
            body = h.body;
            content_type = h.content_type;
            files = (parse_multipart-IsSafeForm m.body boundary).files;
            route = h.route;
          })
  ]
]

consume-Reflects : (m : Message) (r : Request) → Reflects m (consume m r)
unfolding consume
consume-Reflects m r = elim (Bool-cases (same m.method (codes "GET"))) [
  | inl get ↦ rw get (take_query-Reflects m m.query (copy_message m r) (copied-Reflects m r))
  | inr other ↦ elim (Bool-cases (is_empty m.content_type)) [
    | inl untyped ↦ rw (other, untyped) (copied-Reflects m r)
    | inr typed ↦
        elim (Bool-cases (same m.content_type (codes "application/x-www-form-urlencoded"))) [
          | inl form ↦
              rw (other, typed, form)
                (take_query-Reflects m m.body (copy_message m r) (copied-Reflects m r))
          | inr raw ↦ elim (Bool-cases (same m.content_type (codes "multipart/form-data"))) [
            | inl multipart ↦
                rw (other, typed, raw, multipart)
                  (take_form-Reflects m (copy_message m r) (copied-Reflects m r))
            | inr data_ ↦
                rw (other, typed, raw, data_)
                  (record {
                    headers = refl;
                    body = refl;
                    content_type = refl;
                    files = tt;
                    route = refl;
                  })
          ]
        ]
  ]
]

-- Whatever the request held before: after `consume` it shows the message's headers, body and type,
-- every upload has a field, a safe file name and a type, and nothing of what it held is left, since
-- any other request gives the same result.
pub consume-IsFresh :
    (m : Message) (r r' : Request) → Reflects m (consume m r) × (consume m r ≡ consume m r')
consume-IsFresh m r r' = (consume-Reflects m r, unfold consume in refl)
