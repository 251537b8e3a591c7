-- ===== src/Dispatch/Mounts.antt =====
-- The choice of a static mount in `RequestIO::ExecuteRoute` of sources/request/io.cpp.
use vermell.Dispatch.{best_mount}
use vermell.Static.{StaticMount, covers}
use vermell.Prelude.{
  ℕ, suc, ◌<◌, ◌≡◌, refl, ap, ◌⊎◌, inl, inr, true, ◌&&◌, Option, none, some, List, [], ◌∷◌, ◌++◌,
  arith, ltb, Bool-cases, Bytes, length, All,
}

-- A mount that does not cover the path, or whose prefix is shorter than `n`.
abbrev pub IsShorter : Bytes → ℕ → StaticMount → Type 0
IsShorter path n m = covers m path ≡ true → length m.mount < n

-- `m` stands in the list and covers the path; of the mounts that do, those before it have a shorter
-- prefix, and those behind it no longer one.
pub record IsMostSpecific (path : Bytes) (mounts : List StaticMount) (m : StaticMount)
    : Type 0 where
  pub earlier : List StaticMount
  pub later : List StaticMount
  pub split : mounts ≡ earlier ++ m ∷ later
  pub covering : covers m path ≡ true
  pub before : All (IsShorter path (length m.mount)) earlier
  pub behind : All (IsShorter path (suc (length m.mount))) later

-- The loop from a best mount whose prefix has `n` bytes.
best_mount-from :
    (path : Bytes) (best : Option StaticMount) (n : ℕ) (mounts : List StaticMount)
    → ((best_mount path best n mounts ≡ best) × All (IsShorter path (suc n)) mounts)
      ⊎ ((m : StaticMount) × (best_mount path best n mounts ≡ some m)
          × (n < length m.mount)
          × IsMostSpecific path mounts m)
unfolding best_mount
best_mount-from path best n [] = inl (refl, tt)
best_mount-from path best n (x ∷ mounts) =
    elim (Bool-cases (covers x path && ltb n (length x.mount))) [
      | inl better ↦ rw better (elim (best_mount-from path (some x) (length x.mount) mounts) [
        | inl (e, rest) ↦ inr (
          x,
          e,
          ground arith,
          record {
            earlier = [];
            later = mounts;
            split = refl;
            covering = ground arith;
            before = tt;
            behind = rest;
          },
        )
        | inr (m, e, longer, best_of) ↦ inr (
          m,
          e,
          ground arith,
          record {
            earlier = x ∷ best_of.earlier;
            later = best_of.later;
            split = ap (◌∷◌ x) best_of.split;
            covering = best_of.covering;
            before = ((λ _. longer), best_of.before);
            behind = best_of.behind;
          },
        )
      ])
      | inr worse ↦ rw worse (elim (best_mount-from path best n mounts) [
        | inl (e, rest) ↦ inl (e, ((λ covered. ground arith), rest))
        | inr (m, e, longer, best_of) ↦ inr (
          m,
          e,
          longer,
          record {
            earlier = x ∷ best_of.earlier;
            later = best_of.later;
            split = ap (◌∷◌ x) best_of.split;
            covering = best_of.covering;
            before = ((λ covered. ground arith), best_of.before);
            behind = best_of.behind;
          },
        )
      ])
    ]

-- The mount that is chosen for a path is the most specific one: it covers the path, those before it
-- that do have a shorter prefix, and those behind it that do have no longer one; none is chosen
-- exactly where every mount that covers the path has an empty prefix.
pub best_mount-IsMostSpecific :
    (path : Bytes) (mounts : List StaticMount)
    → ((best_mount path none 0 mounts ≡ none) × All (IsShorter path 1) mounts)
      ⊎ ((m : StaticMount) × (best_mount path none 0 mounts ≡ some m)
          × (0 < length m.mount)
          × IsMostSpecific path mounts m)
best_mount-IsMostSpecific path mounts = best_mount-from path none 0 mounts
