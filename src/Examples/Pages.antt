-- ===== src/Examples/Pages.antt =====
-- Templates: include/vermell/util/ver_reader.h, data_render.h.
use vermell.Prelude.{
  ◌≤◌, ◌≡◌, refl, true, none, some, [], ◌∷◌, if◌then◌else◌, Bytes, codes, same, strip_prefix,
  cut_seq, length,
}
use vermell.Params.{pos}
use vermell.Rendering.{
  FileSystem, OpenFile, regular, ReadErr, read_bounded, read_open, read_loop, is_within,
  is_ancestor, valid_include_name, escape_html, escape_html_char,
}
use vermell.Templates.{
  RenderSecurity, effective_root, folder_of, passes_of, ok_status, compose, compose_passes,
  expand_block, find_block, scan_marks, render, fill_rounds, value_of,
}
use vermell.Templates.Composing.{Composed, compose-IsComposed}

abbrev file_of : Bytes → OpenFile
file_of text = record {
  fstat = some (record { kind = regular; size = length text; mtime = 0 });
  reads = some text ∷ some [] ∷ [];
}

-- A page with one module beside it, which holds a marker.
abbrev folder : FileSystem
folder = record {
  stat = λ path. none;
  open_nofollow = λ path.
      if same path (codes "t/page")
      then some (file_of (codes "<p>#[name];</p>"))
      else if same path (codes "t/name")
      then some (file_of (codes "[[who]]!"))
      else none;
  absolute = λ path. some path;
  weakly_canonical = λ path. some (codes "/" ∷ []);
}

abbrev sec : RenderSecurity
sec = record { root = []; max_file_bytes = 100 }

page_composed :
    compose folder (λ path. codes "t") sec (codes "t/page") (pos 3)
    ≡ (codes "<p>[[who]]!</p>", ok_status)
unfolding compose compose_passes expand_block find_block scan_marks read_bounded read_open read_loop
    is_within is_ancestor valid_include_name same cut_seq strip_prefix
page_composed = refl

value_escaped :
    render folder sec ((codes "who", codes "<b>") ∷ []) (codes "t/name") ≡ codes "&lt;b&gt;!"
unfolding render fill_rounds value_of find_block scan_marks read_bounded read_open read_loop
    is_within is_ancestor same escape_html escape_html_char
value_escaped = refl

compose-IsComposed_example :
    (is_within folder (effective_root sec) (codes "t/page") ≡ true)
    × ((read_bounded folder (codes "t/page") sec.max_file_bytes).err ≡ ReadErr.ok)
    × Composed folder sec
        (folder_of (codes "t"))
        (passes_of (pos 3))
        (read_bounded folder (codes "t/page") sec.max_file_bytes).data_
        (codes "<p>[[who]]!</p>")
    × (length (codes "<p>[[who]]!</p>") ≤ sec.max_file_bytes)
compose-IsComposed_example =
    compose-IsComposed folder (λ path. codes "t") sec (codes "t/page") (pos 3) page_composed

-- A value that looks like a marker is filled in the next round.
value_expanded :
    fill_rounds ((codes "a", codes "[[b]]") ∷ (codes "b", codes "s") ∷ []) 2 (codes "[[a]]")
    ≡ codes "s"
unfolding fill_rounds value_of find_block scan_marks same escape_html escape_html_char
value_expanded = refl

-- One variable, two markers: the second stays.
marker_left : fill_rounds ((codes "a", codes "1") ∷ []) 1 (codes "[[a]][[a]]") ≡ codes "1[[a]]"
unfolding fill_rounds value_of find_block scan_marks same escape_html escape_html_char
marker_left = refl
