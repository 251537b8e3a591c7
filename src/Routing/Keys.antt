-- ===== src/Routing/Keys.antt =====
-- Route keys do not collide, and a path's segments.
use vermell.Routing.{route_key, nonempty, split_path}
use vermell.Prelude.{
  ◌≡◌, refl, ap, ◌∙◌, ◌≢◌, List, [], ◌∷◌, arith, Lacks, cut-append, split_on-eq_singleton,
  split_on-append, split_on-Lacks, Bytes, cut, split_on, join_with, All,
}

-- Two registrations whose paths hold no 0x1f byte share a key only if they are the same path and
-- the same method.
pub route_key_injective :
    (path path' method method' : Bytes)
    → Lacks 0x1f path
    → Lacks 0x1f path'
    → route_key path method ≡ route_key path' method'
    → (path ≡ path') × (method ≡ method')
unfolding route_key
route_key_injective path path' method method' h h' e =
    ground (arith, cut-append 0x1f path method h, cut-append 0x1f path' method' h', ap (cut 0x1f) e)

abbrev pub IsSegment : Bytes → Type 0
IsSegment s = (s ≢ []) × Lacks b'/' s

nonempty-IsSegment :
    (segments : List Bytes) → All (Lacks b'/') segments → All IsSegment (nonempty segments)
unfolding nonempty
nonempty-IsSegment [] _ = tt
nonempty-IsSegment ([] ∷ segments) (_, h) = nonempty-IsSegment segments h
nonempty-IsSegment ((c ∷ s) ∷ segments) (p, h) = (((λ e. cc), p), nonempty-IsSegment segments h)

-- The segments of a path are not empty and hold no slash.
pub split_path-IsSegment : (path : Bytes) → All IsSegment (split_path path)
unfolding split_path
split_path-IsSegment path = nonempty-IsSegment _ (split_on-Lacks b'/' path)

nonempty_of_IsSegment :
    (segments : List Bytes) → All IsSegment segments → nonempty segments ≡ segments
unfolding nonempty
nonempty_of_IsSegment [] _ = refl
nonempty_of_IsSegment ([] ∷ segments) ((ne, _), h) = absurd (ne refl)
nonempty_of_IsSegment ((c ∷ s) ∷ segments) (_, h) =
    ap (◌∷◌ (c ∷ s)) (nonempty_of_IsSegment segments h)

-- `/a/b/c` for the segments a, b, c; the root for none.
abbrev pub join_path : List Bytes → Bytes
join_path segments = b'/' ∷ join_with b'/' segments

split_on-join_with :
    (segments : List Bytes)
    → segments ≢ []
    → All IsSegment segments
    → split_on b'/' (join_with b'/' segments) ≡ segments
unfolding join_with
split_on-join_with [] ne _ = absurd (ne refl)
split_on-join_with (s ∷ []) ne ((_, p), _) = split_on-eq_singleton b'/' s p
split_on-join_with (s ∷ t ∷ segments) ne ((_, p), h) =
    split_on-append b'/' s _ p ∙ ap (◌∷◌ s) (split_on-join_with (t ∷ segments) (λ e. cc) h)

-- Splitting a joined path gives its segments back.
pub split_path-join_path :
    (segments : List Bytes) → All IsSegment segments → split_path (join_path segments) ≡ segments
unfolding split_path
split_path-join_path [] _ = unfold split_on nonempty join_with in refl
split_path-join_path (s ∷ segments) h =
    ap nonempty (split_on-append b'/' [] (join_with b'/' (s ∷ segments)) tt)
    ∙ ap (λ x. nonempty ([] ∷ x)) (split_on-join_with (s ∷ segments) (λ e. cc) h)
    ∙ unfold nonempty in nonempty_of_IsSegment (s ∷ segments) h
