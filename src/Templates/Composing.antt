-- ===== src/Templates/Composing.antt =====
-- What a composed page is made of (include/vermell/util/ver_reader.h).
use vermell.Params.{ℤ}
use vermell.Prelude.{
  ℕ, zero, suc, ◌≤◌, ◌≡◌, refl, sym, ap, ◌∙◌, subst, ◌≢◌, inl, inr, true, false, ◌++◌, arith, ltb,
  Bool-cases, same_refl, Bytes, codes, same, length,
}
use vermell.Rendering.{FileSystem, ReadErr, read_bounded, is_within, valid_include_name}
use vermell.Rendering.Reading.{read_bounded-IsBounded}
use vermell.Http.Multipart.Files.{IsSafeName}
use vermell.Rendering.Escaping.{valid_include_name-IsSafeName}
use vermell.Templates.{
  RenderSecurity, effective_root, Block, no_block, unclosed, block, find_block, include_marks, Tag,
  done, composed, unclosed_tag, refused_name, missing, too_large_module, join_module, module_path,
  expand_block, tratament, after_tag, compose_passes, passes_of, folder_of, compose_read, compose,
  ok_status, Page,
}

-- A page that a body becomes within a number of passes: each takes the first block's name for a file
-- of the folder, which a safe name names, and puts that file's bytes in the block's place.
pub data Composed (fs : FileSystem) (sec : RenderSecurity) (folder : Bytes)
    : ℕ → Bytes → Bytes → Type 0 where
  stays : {passes : ℕ} {body : Bytes} → Composed fs sec folder passes body body
  includes :
      {passes : ℕ} {body out : Bytes} (before name after : Bytes)
      → find_block include_marks body ≡ block before name after
      → IsSafeName name × (length name ≤ 255)
      → is_within fs folder (module_path folder name) ≡ true
      → (read_bounded fs (module_path folder name) sec.max_file_bytes).err ≡ ReadErr.ok
      → Composed fs sec folder passes
          (before
            ++ ((read_bounded fs (module_path folder name) sec.max_file_bytes).data_ ++ after))
          out
      → Composed fs sec folder (suc passes) body out

-- Of the read of a module only its bytes are composed.
join_module-composed :
    (before name after : Bytes) (err : ReadErr) (data_ : Bytes) {out : Bytes}
    → join_module before name after (record { err = err; data_ = data_ }) ≡ composed out
    → (err ≡ ReadErr.ok) × (before ++ (data_ ++ after) ≡ out)
join_module-composed before name after ReadErr.ok data_ e = (refl, cc)
join_module-composed before name after ReadErr.not_found data_ e = absurd (cc e)
join_module-composed before name after ReadErr.forbidden data_ e = absurd (cc e)
join_module-composed before name after ReadErr.too_large data_ e = absurd (cc e)
join_module-composed before name after ReadErr.io_error data_ e = absurd (cc e)

-- What a pass has checked when it put a module in.
record Included (fs : FileSystem) (sec : RenderSecurity) (folder : Bytes) (b : Block) (out : Bytes)
    : Type 0 where
  before : Bytes
  name : Bytes
  after : Bytes
  found : b ≡ block before name after
  safe : valid_include_name name ≡ true
  inside : is_within fs folder (module_path folder name) ≡ true
  read : (read_bounded fs (module_path folder name) sec.max_file_bytes).err ≡ ReadErr.ok
  joined :
      before ++ ((read_bounded fs (module_path folder name) sec.max_file_bytes).data_ ++ after)
      ≡ out

expand_block-composed :
    (fs : FileSystem) (sec : RenderSecurity) (folder : Bytes) (b : Block) {out : Bytes}
    → expand_block fs sec folder b ≡ composed out
    → Included fs sec folder b out
unfolding expand_block
expand_block-composed fs sec folder no_block e = absurd (cc e)
expand_block-composed fs sec folder unclosed e = absurd (cc e)
expand_block-composed fs sec folder (block before name after) {out} e =
    elim (Bool-cases (valid_include_name name)) [
      | inr bad ↦ absurd (cc (rw bad at e))
      | inl safe ↦ elim (Bool-cases (is_within fs folder (module_path folder name))) [
        | inr outside ↦ absurd (cc (rw (safe, outside) at e))
        | inl inside ↦
            let r = read_bounded fs (module_path folder name) sec.max_file_bytes in
            let read_ok : join_module before name after r ≡ composed out = rw (safe, inside) at e in
            let (fine, joined) = join_module-composed before name after r.err r.data_ read_ok in
            record {
              before = before;
              name = name;
              after = after;
              found = refl;
              safe = safe;
              inside = inside;
              read = fine;
              joined = joined;
            }
      ]
    ]

-- A page that is sent as it should is composed of the body, and keeps to the cap.
abbrev IsComposed : FileSystem → RenderSecurity → Bytes → ℕ → Bytes → Page → Type 0
IsComposed fs sec folder passes body page =
    page.1 ≡ ok_status
    → Composed fs sec folder passes body page.0 × (length page.0 ≤ sec.max_file_bytes)

not_ok : (s : Bytes) → same s ok_status ≡ false → s ≢ ok_status
not_ok s h = λ e.
    let clash : true ≡ false = sym (same_refl ok_status) ∙ ap (λ t. same t ok_status) (sym e) ∙ h in
    absurd (cc clash)

-- The pages of the passes to come are composed, so that of this pass is.
after_tag-IsComposed :
    (fs : FileSystem) (sec : RenderSecurity) (folder : Bytes) (passes : ℕ) (body : Bytes)
    (tag : Tag)
    → ((out : Bytes)
        → length out ≤ sec.max_file_bytes
        → IsComposed fs sec folder passes out (compose_passes fs sec folder passes out))
    → length body ≤ sec.max_file_bytes
    → tratament fs sec folder body ≡ tag
    → IsComposed fs sec folder
        (suc passes)
        body
        (after_tag sec body (compose_passes fs sec folder passes) tag)
unfolding same
after_tag-IsComposed fs sec folder passes body done more small e = λ h. (stays, small)
after_tag-IsComposed fs sec folder passes body unclosed_tag more small e =
    λ h. absurd (not_ok (codes "400") refl h)
after_tag-IsComposed fs sec folder passes body (refused_name name) more small e =
    λ h. absurd (not_ok (codes "403") refl h)
after_tag-IsComposed fs sec folder passes body (missing name) more small e =
    λ h. absurd (not_ok (codes "404") refl h)
after_tag-IsComposed fs sec folder passes body too_large_module more small e =
    λ h. absurd (not_ok (codes "413") refl h)
after_tag-IsComposed fs sec folder passes body (composed out) more small e =
    elim (Bool-cases (ltb sec.max_file_bytes (length out))) [
      | inl over ↦ rw over (λ h. absurd (not_ok (codes "413") refl h))
      | inr fits ↦ rw fits (λ h.
          let inc = expand_block-composed fs sec folder (find_block include_marks body) e in
          let fine : length out ≤ sec.max_file_bytes = ground arith in
          let (rest, bounded) = more out fine h in
          (
            includes inc.before inc.name inc.after inc.found
                (valid_include_name-IsSafeName inc.name inc.safe) inc.inside inc.read
                (subst
                  (λ b. Composed fs sec folder passes b (compose_passes fs sec folder passes out).0)
                  (sym inc.joined) rest),
            bounded,
          ))
    ]

compose_passes-IsComposed :
    (fs : FileSystem) (sec : RenderSecurity) (folder : Bytes) (passes : ℕ) (body : Bytes)
    → length body ≤ sec.max_file_bytes
    → IsComposed fs sec folder passes body (compose_passes fs sec folder passes body)
unfolding compose_passes
compose_passes-IsComposed fs sec folder zero body small = λ h. (stays, small)
compose_passes-IsComposed fs sec folder (suc passes) body small =
    after_tag-IsComposed fs sec folder passes body (tratament fs sec folder body)
      (compose_passes-IsComposed fs sec folder passes) small refl

compose_read-ok :
    (fs : FileSystem) (sec : RenderSecurity) (path folder : Bytes) (passes : ℕ) (err : ReadErr)
    (data_ : Bytes) {page : Bytes}
    → compose_read fs sec path folder passes (record { err = err; data_ = data_ })
      ≡ (page, ok_status)
    → (err ≡ ReadErr.ok) × (compose_passes fs sec folder passes data_ ≡ (page, ok_status))
unfolding same
compose_read-ok fs sec path folder passes ReadErr.ok data_ e = (refl, e)
compose_read-ok fs sec path folder passes ReadErr.not_found data_ e =
    absurd (not_ok (codes "404") refl (ap (λ p. p.1) e))
compose_read-ok fs sec path folder passes ReadErr.forbidden data_ e =
    absurd (not_ok (codes "403") refl (ap (λ p. p.1) e))
compose_read-ok fs sec path folder passes ReadErr.too_large data_ e =
    absurd (not_ok (codes "413") refl (ap (λ p. p.1) e))
compose_read-ok fs sec path folder passes ReadErr.io_error data_ e =
    absurd (not_ok (codes "500") refl (ap (λ p. p.1) e))

-- A page that `compose` answers with 200 is made from a file inside the jail: the passes that were
-- asked for, 64 at most, put modules in it that safe names name in the file's folder, and it is
-- not longer than the cap.
pub compose-IsComposed :
    (fs : FileSystem) (parent_path : Bytes → Bytes) (sec : RenderSecurity) (path : Bytes)
    (reserve : ℤ) {page : Bytes}
    → compose fs parent_path sec path reserve ≡ (page, ok_status)
    → (is_within fs (effective_root sec) path ≡ true)
      × ((read_bounded fs path sec.max_file_bytes).err ≡ ReadErr.ok)
      × Composed fs sec
          (folder_of (parent_path path))
          (passes_of reserve)
          (read_bounded fs path sec.max_file_bytes).data_
          page
      × (length page ≤ sec.max_file_bytes)
unfolding compose same
compose-IsComposed fs parent_path sec path reserve {page} e =
    elim (Bool-cases (is_within fs (effective_root sec) path)) [
      | inr outside ↦ absurd (not_ok (codes "403") refl (ap (λ p. p.1) (rw outside at e)))
      | inl inside ↦
          let r = read_bounded fs path sec.max_file_bytes in
          let folder = folder_of (parent_path path) in
          let (fine, passed) =
            compose_read-ok fs sec path folder (passes_of reserve) r.err r.data_ (rw inside at e) in
          let small = (read_bounded-IsBounded fs path sec.max_file_bytes fine).0 in
          let (made, bounded) =
            compose_passes-IsComposed fs sec folder (passes_of reserve) r.data_ small
              (ap (λ p. p.1) passed) in
          let out = ap (λ p. p.0) passed in
          (
            inside,
            fine,
            subst (λ p. Composed fs sec folder (passes_of reserve) r.data_ p) out made,
            subst (λ p. length p ≤ sec.max_file_bytes) out bounded,
          )
    ]
