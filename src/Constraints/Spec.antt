-- ===== src/Constraints/Spec.antt =====
-- What the interaction constraints of src/tree/constraints.cc mean: the features permitted below a
-- node, from the features of the splits above it.
use mathlib.Core.Bool.{or_assoc, or_comm, or-false}
use xgboost.Prelude.{
  ℕ, zero, suc, ◌+◌, ◌≡◌, refl, sym, ap, ◌∙◌, Bool, false, ◌&&◌, ◌||◌, List, [], ◌∷◌, ◌++◌, ltb,
  map, leb, elem, insert, insert_all, subset, elem-insert, elem-insert_all, Bool-cases, inl, inr,
  arith,
}
use xgboost.Constraints.{insert_range, permit, permit_all, permit_child}

-- A feature is in a group that holds the whole path.
unfoldable pub in_group : List (List ℕ) → List ℕ → ℕ → Bool
in_group [] path fid = false
in_group (c ∷ cs) path fid = (subset path c && elem fid c) || in_group cs path fid

-- At the root every feature is permitted. Below a path of splits, its own features are, and those
-- of the groups that hold the whole path.
unfoldable pub permitted : List (List ℕ) → ℕ → List ℕ → ℕ → Bool
permitted cs n_features [] fid = ltb fid n_features
permitted cs n_features (p ∷ ps) fid = elem fid (p ∷ ps) || in_group cs (p ∷ ps) fid

-- Groups that are listed twice permit what they permit once.
pub in_group-append :
    (cs ds : List (List ℕ)) (path : List ℕ) (fid : ℕ)
    → in_group (cs ++ ds) path fid ≡ in_group cs path fid || in_group ds path fid
unfolding in_group
in_group-append [] ds path fid = refl
in_group-append (c ∷ cs) ds path fid =
    rw (in_group-append cs ds path fid)
      (sym (or_assoc (subset path c && elem fid c) (in_group cs path fid) (in_group ds path fid)))

subset_same : (s c d : List ℕ) → ((y : ℕ) → elem y c ≡ elem y d) → subset s c ≡ subset s d
unfolding subset
subset_same [] c d same = refl
subset_same (x ∷ s) c d same = rw (same x, subset_same s c d same) refl

-- The groups as sets permit what they permit as they are read.
pub in_group-map :
    (tmp : List (List ℕ)) (path : List ℕ) (fid : ℕ)
    → in_group (map (λ c. insert_all c []) tmp) path fid ≡ in_group tmp path fid
unfolding in_group elem
in_group-map [] path fid = refl
in_group-map (c ∷ tmp) path fid =
    let same : (y : ℕ) → elem y (insert_all c []) ≡ elem y c =
      λ y. elem-insert_all y c [] ∙ or-false (elem y c) in
    rw (subset_same path (insert_all c []) c same, same fid, in_group-map tmp path fid) refl

-- Groups that permit the same below each path.
pub permitted_same :
    (cs ds : List (List ℕ)) (n : ℕ) (path : List ℕ) (fid : ℕ)
    → ((p : List ℕ) (f : ℕ) → in_group cs p f ≡ in_group ds p f)
    → permitted cs n path fid ≡ permitted ds n path fid
unfolding permitted
permitted_same cs ds n [] fid same = refl
permitted_same cs ds n (p ∷ ps) fid same = ap (λ b. elem fid (p ∷ ps) || b) (same (p ∷ ps) fid)

pub in_group_same :
    (cs : List (List ℕ)) (path path' : List ℕ) (fid : ℕ)
    → ((c : List ℕ) → subset path c ≡ subset path' c)
    → in_group cs path fid ≡ in_group cs path' fid
unfolding in_group
in_group_same [] path path' fid same = refl
in_group_same (c ∷ cs) path path' fid same = rw (same c, in_group_same cs path path' fid same) refl

pub elem-permit_all :
    (cs : List (List ℕ)) (path s : List ℕ) (fid : ℕ)
    → elem fid (permit_all path cs s) ≡ elem fid s || in_group cs path fid
unfolding permit_all in_group
elem-permit_all [] path s fid = sym (or-false (elem fid s))
elem-permit_all (c ∷ cs) path s fid =
    elem-permit_all cs path (permit path c s) fid
    ∙ ap (λ b. b || in_group cs path fid) step
    ∙ or_assoc (elem fid s) (subset path c && elem fid c) (in_group cs path fid)
  where
    step : elem fid (permit path c s) ≡ elem fid s || (subset path c && elem fid c)
    step = elim (Bool-cases (subset path c)) [
      | inl e ↦ rw e (elem-insert_all fid c s ∙ or_comm (elem fid c) (elem fid s))
      | inr e ↦ rw e (sym (or-false (elem fid s)))
    ]

pub elem-permit_child :
    (cs : List (List ℕ)) (path : List ℕ) (fid : ℕ)
    → elem fid (permit_child path cs []) ≡ elem fid path || in_group cs path fid
unfolding permit_child elem
elem-permit_child cs path fid =
    elem-permit_all cs path (insert_all path []) fid
    ∙ ap (λ b. b || in_group cs path fid) (elem-insert_all fid path [] ∙ or-false (elem fid path))

-- Reset permits the features below `n_features` at the root.
pub elem-insert_range :
    (count i fid : ℕ) (s : List ℕ)
    → elem fid (insert_range count i s) ≡ (leb i fid && ltb fid (i + count)) || elem fid s
unfolding insert_range elem
elem-insert_range zero i fid s = ground arith
elem-insert_range (suc count) i fid s =
    elem-insert_range count (i + 1) fid (insert i s)
    ∙ ap (λ b. (leb (i + 1) fid && ltb fid (i + 1 + count)) || b) (elem-insert fid i s)
    ∙ ground arith
