-- ===== src/Http/Multipart/Save.antt =====
-- `UploadedFile::save_to` of include/vermell/http/message.hpp: which paths reach the disk.
use vermell.Http.Multipart.{
  is_letter, map, split_on, is_control, UploadedFile, is_slash, segments, dotdot, is_bad_segment,
  is_absolute, refuses, save_to,
}
use vermell.Http.Multipart.Files.{IsSafeName, IsSafeFile}
use vermell.Prelude.{
  ℕ, ◌≤◌, ◌≡◌, refl, sym, ap, subst, ◌≢◌, ◌↔◌, ◌⊎◌, inl, inr, Bool, true, false, ◌&&◌, ◌||◌, List,
  [], ◌∷◌, ◌++◌, map, arith, ◌==◌, if◌then◌else◌, Bool-cases, same_iff, Bytes, same, is_empty,
  has_byte, cons_head, split_on, any, All, All-append,
}

-- Both kinds of slash as one.
abbrev to_slash : ℕ → ℕ
to_slash c = if c == b'\\' then b'/' else c

abbrev IsLetter : ℕ → Type 0
IsLetter c = ((b'A' ≤ c) × (c ≤ b'Z')) ⊎ ((b'a' ≤ c) × (c ≤ b'z'))

-- A path that is not empty, starts with no slash of either kind and with no letter and colon, and
-- none of whose pieces between slashes of either kind is `..` or has a NUL.
pub record IsJailed (path : Bytes) : Type 0 where
  pub nonempty : path ≢ []
  pub not_root : (rest : Bytes) → path ≢ b'/' ∷ rest
  pub not_share : (rest : Bytes) → path ≢ b'\\' ∷ rest
  pub not_drive : (c : ℕ) (rest : Bytes) → IsLetter c → path ≢ c ∷ b':' ∷ rest
  pub segments :
      All (λ s. (s ≢ dotdot) × (has_byte 0 s ≡ false)) (split_on b'/' (map to_slash path))

abbrev IsGoodSegment : Bytes → Type 0
IsGoodSegment s = (s ≢ dotdot) × (has_byte 0 s ≡ false)

is_bad_segment_iff : (s : Bytes) → (is_bad_segment s ≡ false) ↔ IsGoodSegment s
is_bad_segment_iff s = elim (Bool-cases (same s dotdot)) [
  | inl e ↦ rw e ((λ h. cc), (λ (ne, nul). absurd (ne ((same_iff s dotdot).0 e))))
  | inr e ↦ rw e ((λ h. ((λ eq. cc ((same_iff s dotdot).1 eq, e)), h)), (λ (ne, nul). nul))
]

any_segment : (xs : List Bytes) → (any is_bad_segment xs ≡ false) → All IsGoodSegment xs
any_segment [] h = tt
any_segment (x ∷ xs) h = elim (Bool-cases (is_bad_segment x)) [
  | inl bad ↦ absurd (cc (rw bad at h))
  | inr good ↦ ((is_bad_segment_iff x).0 good, any_segment xs (rw good at h))
]

any_segment_of_All : (xs : List Bytes) → All IsGoodSegment xs → any is_bad_segment xs ≡ false
any_segment_of_All [] _ = refl
any_segment_of_All (x ∷ xs) (good, rest) =
    rw ((is_bad_segment_iff x).1 good) (any_segment_of_All xs rest)

segments-split_on : (path : Bytes) → split_on b'/' (map to_slash path) ≡ segments path
unfolding segments split_on
segments-split_on [] = refl
segments-split_on (c ∷ s) = rw (segments-split_on s) (ground arith)

-- A path starts at a root or a drive exactly when the test says so.
abbrev IsRelative : Bytes → Type 0
IsRelative path =
    ((rest : Bytes) → path ≢ b'/' ∷ rest)
    × ((rest : Bytes) → path ≢ b'\\' ∷ rest)
    × ((c : ℕ) (rest : Bytes) → IsLetter c → path ≢ c ∷ b':' ∷ rest)

is_absolute-IsRelative : (path : Bytes) → is_absolute path ≡ false → IsRelative path
is_absolute-IsRelative path h = (
  (λ rest e. absurd (cc (rw e at h))),
  (λ rest e. absurd (cc (rw e at h))),
  (λ c rest letter e. let h' = rw e at h in ground arith),
)

IsRelative-is_absolute : (path : Bytes) → IsRelative path → is_absolute path ≡ false
IsRelative-is_absolute [] h = refl
IsRelative-is_absolute (c ∷ []) (root, share, drive) =
    let no_root : c ≢ b'/' = λ e. root [] (ap (λ x. x ∷ []) e) in
    let no_share : c ≢ b'\\' = λ e. share [] (ap (λ x. x ∷ []) e) in ground arith
IsRelative-is_absolute (c ∷ d ∷ s) (root, share, drive) =
    let no_root : c ≢ b'/' = λ e. root (d ∷ s) (ap (λ x. x ∷ d ∷ s) e) in
    let no_share : c ≢ b'\\' = λ e. share (d ∷ s) (ap (λ x. x ∷ d ∷ s) e) in
    elim (Bool-cases (d == b':' && is_letter c)) [
      | inl is_drive ↦
          let colon : d ≡ b':' = ground arith in
          let letter : IsLetter c = ground arith in
          absurd (drive c s letter (ap (λ x. c ∷ x ∷ s) colon))
      | inr other ↦ ground arith
    ]

-- The test, taken apart.
abbrev IsAccepted : Bytes → Type 0
IsAccepted path =
    (is_empty path ≡ false) × (is_absolute path ≡ false) × All IsGoodSegment (segments path)

refuses-IsAccepted : (path : Bytes) → refuses path ≡ false → IsAccepted path
unfolding refuses
refuses-IsAccepted path h = elim (Bool-cases (is_empty path || is_absolute path)) [
  | inl out ↦ absurd (cc (rw out at h))
  | inr relative ↦ (ground arith, ground arith, any_segment (segments path) (rw relative at h))
]

IsAccepted-refuses : (path : Bytes) → IsAccepted path → refuses path ≡ false
unfolding refuses
IsAccepted-refuses path (some_path, relative, good) =
    rw (some_path, relative) (any_segment_of_All (segments path) good)

nonempty_path : (path : Bytes) → is_empty path ≡ false → path ≢ []
nonempty_path path h = λ e. absurd (cc (rw e at h))

is_empty_path : (path : Bytes) → path ≢ [] → is_empty path ≡ false
is_empty_path [] h = absurd (h refl)
is_empty_path (c ∷ s) h = refl

IsAccepted-IsJailed : (path : Bytes) → IsAccepted path → IsJailed path
IsAccepted-IsJailed path (some_path, relative, good) =
    let (root, share, drive) = is_absolute-IsRelative path relative in
    record {
      nonempty = nonempty_path path some_path;
      not_root = root;
      not_share = share;
      not_drive = drive;
      segments = subst (All IsGoodSegment) (sym (segments-split_on path)) good;
    }

IsJailed-IsAccepted : (path : Bytes) → IsJailed path → IsAccepted path
IsJailed-IsAccepted path jailed = (
  is_empty_path path jailed.nonempty,
  IsRelative-is_absolute path (jailed.not_root, jailed.not_share, jailed.not_drive),
  subst (All IsGoodSegment) (segments-split_on path) jailed.segments,
)

refuses_iff : (path : Bytes) → (refuses path ≡ false) ↔ IsJailed path
refuses_iff path = (
  (λ h. IsAccepted-IsJailed path (refuses-IsAccepted path h)),
  (λ jailed. IsAccepted-refuses path (IsJailed-IsAccepted path jailed)),
)

-- Whatever the disk and its write are: `save_to` writes the file's content at a path that is not
-- empty, starts with no slash of either kind and with no letter and colon, and none of whose pieces
-- between slashes of either kind is `..` or has a NUL, and returns what the write returns; at any
-- other path it returns false and leaves the disk as it is.
pub save_to-cases {ℓ} :
    {Disk : Type ℓ} (write : Bytes → Bytes → Disk → Bool × Disk) (file : UploadedFile)
    (path : Bytes) (disk : Disk)
    → (IsJailed path × (save_to write file path disk ≡ write path file.content disk))
      ⊎ ((¬ IsJailed path) × (save_to write file path disk ≡ (false, disk)))
unfolding save_to
save_to-cases write file path disk = elim (Bool-cases (refuses path)) [
  | inr accepted ↦ inl ((refuses_iff path).0 accepted, rw accepted refl)
  | inl refused ↦ inr ((λ jailed. cc ((refuses_iff path).1 jailed, refused)), rw refused refl)
]

cons_head-append :
    (x : ℕ) (xs ys : List Bytes) → xs ≢ [] → cons_head x (xs ++ ys) ≡ cons_head x xs ++ ys
cons_head-append x [] ys h = absurd (h refl)
cons_head-append x (y ∷ xs) ys h = refl

cons_head-ne-nil : (x : ℕ) (xs : List Bytes) → cons_head x xs ≢ []
cons_head-ne-nil x [] = ground arith
cons_head-ne-nil x (y ∷ ys) = ground arith

segments-ne-nil : (s : Bytes) → segments s ≢ []
unfolding segments
segments-ne-nil [] = ground arith
segments-ne-nil (c ∷ s) = elim (Bool-cases (is_slash c)) [
  | inl slash ↦ rw slash (ground arith)
  | inr other ↦ rw other (cons_head-ne-nil c (segments s))
]

segments-append :
    (a : Bytes) (c : ℕ) (b : Bytes)
    → is_slash c ≡ true
    → segments (a ++ c ∷ b) ≡ segments a ++ segments b
unfolding segments
segments-append [] c b h = rw h refl
segments-append (x ∷ a) c b h = elim (Bool-cases (is_slash x)) [
  | inl slash ↦ rw (slash, segments-append a c b h) refl
  | inr other ↦
      rw (other, segments-append a c b h)
        (cons_head-append x (segments a) (segments b) (segments-ne-nil a))
]

segments-bare : (s : Bytes) → All (λ c. is_slash c ≡ false) s → segments s ≡ s ∷ []
unfolding segments
segments-bare [] _ = refl
segments-bare (c ∷ s) (other, bare) = rw (other, segments-bare s bare) refl

has_byte-printable : (s : Bytes) → All (λ c. is_control c ≡ false) s → has_byte 0 s ≡ false
unfolding has_byte
has_byte-printable [] _ = refl
has_byte-printable (c ∷ s) (h, hs) = ground (arith, has_byte-printable s hs)

is_absolute-append :
    (dir name : Bytes)
    → is_empty dir ≡ false
    → is_absolute dir ≡ false
    → is_absolute (dir ++ b'/' ∷ name) ≡ false
is_absolute-append [] name some_dir h = absurd (cc some_dir)
is_absolute-append (c ∷ []) name some_dir h = ground arith
is_absolute-append (c ∷ d ∷ s) name some_dir h = h

is_empty-join : (dir name : Bytes) → is_empty (dir ++ b'/' ∷ name) ≡ false
is_empty-join [] name = refl
is_empty-join (c ∷ dir) name = refl

-- A safe file name under a directory that `save_to` accepts gives a path that it accepts.
pub IsJailed-join :
    (dir name : Bytes) → IsJailed dir → IsSafeName name → IsJailed (dir ++ b'/' ∷ name)
IsJailed-join dir name jailed safe =
    let (some_dir, relative, good) = IsJailed-IsAccepted dir jailed in
    IsAccepted-IsJailed (dir ++ b'/' ∷ name) (
      is_empty-join dir name,
      is_absolute-append dir name some_dir relative,
      rw (segments-append dir b'/' name refl, segments-bare name safe.bare)
          (All-append IsGoodSegment (segments dir) (name ∷ []) good
            ((safe.not_dotdot, has_byte-printable name safe.printable), tt)),
    )

-- A file of a parsed form, saved under its own name in a directory whose path `save_to` accepts, is
-- written there with its content.
pub save_to-file {ℓ} :
    {Disk : Type ℓ} (write : Bytes → Bytes → Disk → Bool × Disk) (file : UploadedFile) (dir : Bytes)
    (disk : Disk)
    → IsJailed dir
    → IsSafeFile file
    → save_to write file (dir ++ b'/' ∷ file.filename) disk
      ≡ write (dir ++ b'/' ∷ file.filename) file.content disk
save_to-file write file dir disk jailed safe =
    elim (save_to-cases write file (dir ++ b'/' ∷ file.filename) disk) [
      | inl (_, written) ↦ written
      | inr (refused, _) ↦ absurd (refused (IsJailed-join dir file.filename jailed safe.safe))
    ]
