-- ===== src/RowSet/Split.antt =====
-- AddSplit of RowSetCollection (src/common/row_set.h): it divides a node's rows between two new nodes.
use native.Mathlib.Bridge.{le_prop}
use mathlib.Core.List.{
  Mem, Nodup, mem-cons, mem-cons_self, mem-cons_of_mem, not-mem-nil, Nodup-cons, perm_middle,
}
use mathlib.Core.List.Perm
use mathlib.Core.Logic.Or
use mathlib.Core.HLevel.{⊥_prop}
use xgboost.Prelude.{
  ℕ, zero, suc, ◌+◌, ◌-◌, ◌≤◌, ◌<◌, ◌≡◌, ◌≢◌, refl, sym, ap, ◌∙◌, subst, List, [], ◌∷◌, ◌++◌, none,
  some, some_inj, max, length, get_or, set, take, drop, arith, leb, length-set, length-resize,
  get_or-resize, get_or-set_self, get_or-set_ne, Bool-cases, inl, inr,
}
use xgboost.RowSet.{
  Elem, RowSetCollection, no_elem, elem_at, elem_of, get, size, grow_to, write_split, add_split,
}
use xgboost.RowSet.Cover.{segment, Chain, Covers, drop-drop}

take-take : (m n : ℕ) (xs : List ℕ) → m ≤ n → take m (take n xs) ≡ take m xs
take-take zero n xs le = refl
take-take (suc m) zero xs le = elim le [ ]
take-take (suc m) (suc n) [] le = refl
take-take (suc m) (suc n) (x ∷ xs) le = ap (λ ys. x ∷ ys) (take-take m n xs (omega arith))

drop-take : (n m : ℕ) (xs : List ℕ) → drop n (take m xs) ≡ take (m - n) (drop n xs)
drop-take zero m xs = let e : m ≡ m - zero = omega arith in ap (λ k. take k xs) e
drop-take (suc n) zero xs =
    let e : zero ≡ zero - suc n = omega arith in ap (λ k. take k (drop (suc n) xs)) e
drop-take (suc n) (suc m) [] = take_nil (suc m - suc n)
  where
    take_nil : (k : ℕ) → [] ≡ take {A = ℕ} k []
    take_nil zero = refl
    take_nil (suc k) = refl
drop-take (suc n) (suc m) (x ∷ xs) =
    let e : m - n ≡ suc m - suc n = omega arith in drop-take n m xs ∙ ap (λ k. take k (drop n xs)) e

module _ (id : ℕ) (v : List Elem) where
  length-grow_to : length (grow_to id v) ≡ max (length v) (id + 1)
  length-grow_to = elim (Bool-cases (leb (length v) id)) [
    | inl e ↦ rw (e) (length-resize (id + 1) no_elem v ∙ ground arith)
    | inr e ↦ rw (e) (ground arith)
  ]

  get_or-grow_to : (k : ℕ) → get_or (grow_to id v) k no_elem ≡ get_or v k no_elem
  get_or-grow_to k = elim (Bool-cases (leb (length v) id)) [
    | inl e ↦ rw (e) (get_or-resize (id + 1) no_elem v k (ground arith))
    | inr e ↦ rw (e) refl
  ]

module _ (c : RowSetCollection) where
  Chain-mem :
      {k : ℕ} (b : ℕ) (ns : List ℕ) → Chain c b ns → Mem k ns → k < length c.elem_of_each_node
  Chain-mem b [] h m = absurd (not-mem-nil m)
  Chain-mem {k} b (n ∷ ns) (e, at, inside, le, rest) m =
      Or.elim le_prop (mem-cons.0 m) (λ same. omega arith) (Chain-mem e ns rest)

  -- Where the node `nid` stands in the chain.
  Chain-at :
      (b nid : ℕ) (pre post : List ℕ)
      → Chain c b (pre ++ (nid ∷ post))
      → (b0 : ℕ) × (e0 : ℕ) × (elem_at c nid ≡ elem_of b0 e0 nid) × (b0 ≤ e0)
  Chain-at b nid [] post (e, at, inside, le, rest) = (b, e, at, le)
  Chain-at b nid (n ∷ pre) post (e, at, inside, le, rest) = Chain-at e nid pre post rest

-- What AddSplit leaves.
pub record Divided (c : RowSetCollection) (nid l r n_left : ℕ) (c' : RowSetCollection)
    : Type 0 where
  pub same_rows : c'.row_indices ≡ c.row_indices
  pub left_rows :
      segment c.row_indices (elem_at c' l) ≡ take n_left (segment c.row_indices (elem_at c nid))
  pub right_rows :
      segment c.row_indices (elem_at c' r) ≡ drop n_left (segment c.row_indices (elem_at c nid))
  pub parent_gone : get c' nid ≡ none

module _ (c : RowSetCollection) (nid l r b0 n_left e0 : ℕ)
    (inside : nid < length c.elem_of_each_node) (left_new : length c.elem_of_each_node ≤ l)
    (right_new : length c.elem_of_each_node ≤ r) (differ : l ≢ r) where
  abbrev v0 : List Elem
  v0 = grow_to r (grow_to l c.elem_of_each_node)

  abbrev v1 : List Elem
  v1 = set v0 l (elem_of b0 (b0 + n_left) l)

  abbrev v2 : List Elem
  v2 = set v1 r (elem_of (b0 + n_left) e0 r)

  abbrev c' : RowSetCollection
  c' = write_split c nid l r b0 n_left e0

  length-v0 : length v0 ≡ max (max (length c.elem_of_each_node) (l + 1)) (r + 1)
  length-v0 =
      length-grow_to r (grow_to l c.elem_of_each_node)
      ∙ ap (λ n. max n (r + 1)) (length-grow_to l c.elem_of_each_node)

  length-v1 : length v1 ≡ length v0
  length-v1 = length-set v0 l (elem_of b0 (b0 + n_left) l)

  length-v2 : length v2 ≡ length v1
  length-v2 = length-set v1 r (elem_of (b0 + n_left) e0 r)

  length-write_split : length c'.elem_of_each_node ≡ length v0
  unfolding write_split
  length-write_split = length-set v2 nid no_elem ∙ length-v2 ∙ length-v1

  at_others : (k : ℕ) → k ≢ nid → k < length c.elem_of_each_node → elem_at c' k ≡ elem_at c k
  unfolding elem_at write_split
  at_others k ne lt =
      get_or-set_ne v2 nid k no_elem no_elem (λ e. ne (sym e))
      ∙ get_or-set_ne v1 r k (elem_of (b0 + n_left) e0 r) no_elem (λ e. omega arith)
      ∙ get_or-set_ne v0 l k (elem_of b0 (b0 + n_left) l) no_elem (λ e. omega arith)
      ∙ get_or-grow_to r (grow_to l c.elem_of_each_node) k
      ∙ get_or-grow_to l c.elem_of_each_node k

  at_left : elem_at c' l ≡ elem_of b0 (b0 + n_left) l
  unfolding elem_at write_split
  at_left =
      get_or-set_ne v2 nid l no_elem no_elem (λ e. omega arith)
      ∙ get_or-set_ne v1 r l (elem_of (b0 + n_left) e0 r) no_elem (λ e. differ (sym e))
      ∙ get_or-set_self v0 l (elem_of b0 (b0 + n_left) l) no_elem (omega (arith, length-v0))

  at_right : elem_at c' r ≡ elem_of (b0 + n_left) e0 r
  unfolding elem_at write_split
  at_right =
      get_or-set_ne v2 nid r no_elem no_elem (λ e. omega arith)
      ∙ get_or-set_self v1 r (elem_of (b0 + n_left) e0 r) no_elem
          (omega (arith, length-v0, length-v1))

  at_parent : elem_at c' nid ≡ no_elem
  unfolding elem_at write_split
  at_parent =
      get_or-set_self v2 nid no_elem no_elem (omega (arith, length-v0, length-v1, length-v2))

  -- A chain of other nodes stays one.
  Chain-others :
      (b : ℕ) (ns : List ℕ) → ((k : ℕ) → Mem k ns → k ≢ nid) → Chain c b ns → Chain c' b ns
  unfolding write_split
  Chain-others b [] apart h = h
  Chain-others b (n ∷ ns) apart (e, at, lt, le, rest) = (
    e,
    at_others n (apart n mem-cons_self) lt ∙ at,
    omega (arith, length-write_split, length-v0),
    le,
    Chain-others e ns (λ k m. apart k (mem-cons_of_mem n m)) rest,
  )

  Chain-split :
      (b : ℕ) (pre post : List ℕ)
      → ((k : ℕ) → Mem k (pre ++ post) → k ≢ nid)
      → elem_at c nid ≡ elem_of b0 e0 nid
      → b0 + n_left ≤ e0
      → Chain c b (pre ++ (nid ∷ post))
      → Chain c' b (pre ++ (l ∷ r ∷ post))
  Chain-split b [] post apart at0 room (e, at, lt, le, rest) =
      let b_eq = some_inj (ap (λ x. x.begin) (sym at ∙ at0)) in
      let e_eq = ap (λ x. x.stop) (sym at ∙ at0) in
      (
        b0 + n_left,
        at_left ∙ ap (λ k. elem_of k (b0 + n_left) l) (sym b_eq),
        omega (arith, length-write_split, length-v0),
        omega arith,
        (
          e0,
          at_right,
          omega (arith, length-write_split, length-v0),
          room,
          subst (λ k. Chain c' k post) e_eq (Chain-others e post apart rest),
        ),
      )
  Chain-split b (n ∷ pre) post apart at0 room (e, at, lt, le, rest) = (
    e,
    at_others n (apart n mem-cons_self) lt ∙ at,
    omega (arith, length-write_split, length-v0),
    le,
    Chain-split e pre post (λ k m. apart k (mem-cons_of_mem n m)) at0 room rest,
  )

  write_split-Divided :
      elem_at c nid ≡ elem_of b0 e0 nid → b0 + n_left ≤ e0 → Divided c nid l r n_left c'
  write_split-Divided at room = record {
    same_rows = unfold write_split in refl;
    left_rows =
        ap (segment c.row_indices) at_left
        ∙ left_take
        ∙ sym (ap (λ x. take n_left (segment c.row_indices x)) at);
    right_rows =
        ap (segment c.row_indices) at_right
        ∙ right_drop
        ∙ sym (ap (λ x. drop n_left (segment c.row_indices x)) at);
    parent_gone = unfold get in rw (at_parent) refl;
  }
    where
      rows : List ℕ
      rows = c.row_indices

      left_take :
          take (b0 + n_left - b0) (drop b0 rows) ≡ take n_left (take (e0 - b0) (drop b0 rows))
      left_take =
          let e : b0 + n_left - b0 ≡ n_left = omega arith in
          ap (λ k. take k (drop b0 rows)) e
          ∙ sym (take-take n_left (e0 - b0) (drop b0 rows) (omega arith))

      right_drop :
          take (e0 - (b0 + n_left)) (drop (b0 + n_left) rows)
          ≡ drop n_left (take (e0 - b0) (drop b0 rows))
      right_drop =
          let e : e0 - (b0 + n_left) ≡ e0 - b0 - n_left = omega arith in
          ap (λ k. take k (drop (b0 + n_left) rows)) e
          ∙ ap (take (e0 - b0 - n_left)) (drop-drop b0 n_left rows)
          ∙ sym (drop-take n_left (e0 - b0) (drop b0 rows))

add_split_run :
    (c : RowSetCollection) (nid l r n_left n_right b0 e0 : ℕ)
    → elem_at c nid ≡ elem_of b0 e0 nid
    → b0 ≤ e0
    → n_left + n_right ≡ e0 - b0
    → add_split c nid l r n_left n_right ≡ some (write_split c nid l r b0 n_left e0)
unfolding add_split size
add_split_run c nid l r n_left n_right b0 e0 at le sum = rw (at) (ground arith)

module _ (c : RowSetCollection) (nid : ℕ) (pre post : List ℕ)
    (covers : Covers c (pre ++ (nid ∷ post))) (l r n_left n_right : ℕ) where
  -- The live nodes but for `nid`.
  rest_distinct : Nodup (nid ∷ (pre ++ post))
  rest_distinct = Perm.nodup (perm_middle pre post) covers.distinct

  rest_lt : {k : ℕ} → Mem k (nid ∷ (pre ++ post)) → k < length c.elem_of_each_node
  rest_lt m =
      Chain-mem c 0 (pre ++ (nid ∷ post)) covers.chain
        ((Perm.mem_iff (Perm.symm (perm_middle pre post))).0 m)

  module _ (left_new : length c.elem_of_each_node ≤ l) (right_new : length c.elem_of_each_node ≤ r)
      (differ : l ≢ r) where
    split_distinct : Nodup (pre ++ (l ∷ r ∷ post))
    split_distinct =
        Perm.nodup
          (Perm.symm (Perm.trans (perm_middle pre (r ∷ post)) (Perm.cons l (perm_middle pre post))))
          (Nodup-cons.1 (
            (λ m. Or.elim ⊥_prop (mem-cons.0 m) differ (λ m'. new_not l left_new m')),
            Nodup-cons.1 (new_not r right_new, (Nodup-cons.0 rest_distinct).1),
          ))
      where
        new_not : (k : ℕ) → length c.elem_of_each_node ≤ k → Mem k (pre ++ post) → ⊥
        new_not k new m = omega (arith, rest_lt (mem-cons_of_mem nid m))

    -- AddSplit at a live node whose rows it divides into `n_left` and `n_right` many, for two new
    -- nodes, passes its checks. The live nodes with the two in place of the divided one cover the rows
    -- again; the left one has the first `n_left` rows, the right one the others, the vector of rows is
    -- the same, and the divided node is in the set no more.
    pub add_split-Covers :
        n_left + n_right ≡ size (elem_at c nid)
        → (c' : RowSetCollection) × (add_split c nid l r n_left n_right ≡ some c')
          × Covers c' (pre ++ (l ∷ r ∷ post))
          × Divided c nid l r n_left c'
    unfolding size
    add_split-Covers sizes =
        let (b0, e0, at, le) = Chain-at c 0 nid pre post covers.chain in
        let inside = rest_lt mem-cons_self in
        let sum : n_left + n_right ≡ e0 - b0 = sizes ∙ ap size at in
        (
          write_split c nid l r b0 n_left e0,
          add_split_run c nid l r n_left n_right b0 e0 at le sum,
          record {
            chain =
                Chain-split c nid l r b0 n_left e0 inside left_new right_new differ 0 pre post
                  (λ k m e. (Nodup-cons.0 rest_distinct).0 (subst (λ x. Mem x (pre ++ post)) e m))
                  at (omega arith) covers.chain;
            distinct = split_distinct;
          },
          write_split-Divided c nid l r b0 n_left e0 inside left_new right_new differ at
              (omega arith),
        )
