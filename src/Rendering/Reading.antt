-- ===== src/Rendering/Reading.antt =====
-- `read_bounded` of include/vermell/util/secure_render.h.
use vermell.Rendering.{
  Kind, regular, Stat, OpenFile, FileSystem, ok, read_loop, read_open, read_bounded, is_regular,
  exceeds, special, directory,
}
use vermell.Prelude.{
  ℕ, ◌+◌, ◌≤◌, ◌≡◌, refl, sym, ap, ◌∙◌, ◌≢◌, ◌⊎◌, inl, inr, false, Option, none, some, List, [],
  ◌∷◌, ◌++◌, map, append-nil, append_assoc, arith, ltb, Bool-cases, Option-cases, Bytes, length,
  length-append, All,
}

Kind-cases : (k : Kind) → (k ≡ regular) ⊎ (is_regular k ≡ false)
Kind-cases regular = inl refl
Kind-cases directory = inr refl
Kind-cases special = inr refl

read_loop-bound :
    (max_bytes : ℕ) (out : Bytes) (reads : List (Option Bytes))
    → length out ≤ max_bytes
    → (read_loop max_bytes out reads).err ≡ ok
    → length (read_loop max_bytes out reads).data_ ≤ max_bytes
unfolding read_loop
read_loop-bound max_bytes out [] le h = le
read_loop-bound max_bytes out (none ∷ reads) le h = cc
read_loop-bound max_bytes out (some [] ∷ reads) le h = le
read_loop-bound max_bytes out (some (c ∷ chunk) ∷ reads) le h =
    elim (Bool-cases (ltb max_bytes (length out + length (c ∷ chunk)))) [
      | inl over ↦ absurd (cc (rw over at h))
      | inr fits ↦
          let le' : length (out ++ (c ∷ chunk)) ≤ max_bytes =
            ground (arith, length-append out (c ∷ chunk)) in
          rw fits (read_loop-bound max_bytes (out ++ (c ∷ chunk)) reads le' (rw fits at h))
    ]

unfoldable pub concat_chunks : List Bytes → Bytes
concat_chunks [] = []
concat_chunks (chunk ∷ chunks) = chunk ++ concat_chunks chunks

-- All that the reads of a file give up to its end, in order: a read of no bytes, or no more reads.
pub record IsContent (reads : List (Option Bytes)) (data_ : Bytes) : Type 0 where
  pub chunks : List Bytes
  pub behind : List (Option Bytes)
  pub begins : reads ≡ map some chunks ++ behind
  pub ends : (behind ≡ []) ⊎ ((more : List (Option Bytes)) × (behind ≡ some [] ∷ more))
  pub nonempty : All (λ chunk. chunk ≢ []) chunks
  pub joined : data_ ≡ concat_chunks chunks

read_loop-IsContent :
    (max_bytes : ℕ) (out : Bytes) (reads : List (Option Bytes))
    → (read_loop max_bytes out reads).err ≡ ok
    → (tail : Bytes) × ((read_loop max_bytes out reads).data_ ≡ out ++ tail) × IsContent reads tail
unfolding read_loop concat_chunks
read_loop-IsContent max_bytes out [] h = (
  [],
  sym (append-nil out),
  record { chunks = []; behind = []; begins = refl; ends = inl refl; nonempty = tt; joined = refl },
)
read_loop-IsContent max_bytes out (none ∷ reads) h = absurd (cc h)
read_loop-IsContent max_bytes out (some [] ∷ reads) h = (
  [],
  sym (append-nil out),
  record {
    chunks = [];
    behind = some [] ∷ reads;
    begins = refl;
    ends = inr (reads, refl);
    nonempty = tt;
    joined = refl;
  },
)
read_loop-IsContent max_bytes out (some (c ∷ chunk) ∷ reads) h =
    elim (Bool-cases (ltb max_bytes (length out + length (c ∷ chunk)))) [
      | inl over ↦ absurd (cc (rw over at h))
      | inr fits ↦
          let (tail, e, k) =
            read_loop-IsContent max_bytes (out ++ (c ∷ chunk)) reads (rw fits at h) in
          (
            (c ∷ chunk) ++ tail,
            rw fits (e ∙ append_assoc out (c ∷ chunk) tail),
            record {
              chunks = (c ∷ chunk) ∷ k.chunks;
              behind = k.behind;
              begins = ap (◌∷◌ (some (c ∷ chunk))) k.begins;
              ends = k.ends;
              nonempty = ((λ e'. cc), k.nonempty);
              joined = ap (λ s. (c ∷ chunk) ++ s) k.joined;
            },
          )
    ]

-- The data of a successful read are all that the reads of a regular file give up to its end, one
-- behind the other; the size of the file and the length of the data are within the cap.
pub read_bounded-IsBounded :
    (fs : FileSystem) (path : Bytes) (max_bytes : ℕ)
    → (read_bounded fs path max_bytes).err ≡ ok
    → (length (read_bounded fs path max_bytes).data_ ≤ max_bytes)
      × ((f : OpenFile) × (st : Stat) × (fs.open_nofollow path ≡ some f)
          × (f.fstat ≡ some st)
          × (st.kind ≡ regular)
          × (st.size ≤ max_bytes)
          × IsContent f.reads (read_bounded fs path max_bytes).data_)
unfolding read_bounded read_open
read_bounded-IsBounded fs path max_bytes h = elim (Option-cases (fs.open_nofollow path)) [
  | inl missing ↦ absurd (cc (rw (missing, read_bounded) at h))
  | inr (f, opened) ↦ elim (Option-cases f.fstat) [
    | inl bad ↦ absurd (cc (rw (read_bounded, read_open, opened, bad) at h))
    | inr (st, stated) ↦ elim (Kind-cases st.kind) [
      | inr odd ↦ absurd (cc (rw (read_bounded, read_open, opened, stated, odd) at h))
      | inl plain ↦ elim (Bool-cases (exceeds st.size max_bytes)) [
        | inl over ↦
            absurd (cc (rw (read_bounded, read_open, opened, stated, plain, is_regular, over) at h))
        | inr fits ↦
            let done = rw (read_bounded, read_open, opened, stated, plain, is_regular, fits) at h in
            let (tail, whole, content) = read_loop-IsContent max_bytes [] f.reads done in
            (
              rw (read_bounded, read_open, opened, stated, plain, is_regular, fits)
                  (read_loop-bound max_bytes [] f.reads (omega arith) done),
              (
                f,
                st,
                opened,
                stated,
                plain,
                ground arith,
                rw (read_bounded, read_open, opened, stated, plain, is_regular, fits, whole)
                    content,
              ),
            )
      ]
    ]
  ]
]
