-- ===== src/Json/Loops.antt =====
-- The loops of ParseArray and ParseObject over a text that JsonWriter wrote (src/common/json.cc), given what
-- Parse reads of the parts.
use mathlib.Core.List.{append_assoc, append-nil}
use xgboost.Prelude.{
  ℕ, zero, suc, ◌≡◌, ◌≢◌, ◌<◌, refl, sym, ap, ◌∙◌, subst, false, List, [], ◌∷◌, ◌++◌, Option, some,
  ◌==◌, length, length-append, arith,
}
use xgboost.Json.Value.{
  FloatFormat, Json, Elements, Members, no_element, element, no_member, member, insert, push_back,
}
use xgboost.Json.Cursor.{
  is_space, skip_spaces, peek_next_char, get_next_char, get_next_non_space_char,
  get_consecutive_char,
}
use xgboost.Json.Scan.{Ends}
use xgboost.Json.Strings.{AreKept, parse_string-AreKept}
use xgboost.Json.Reader.{refused, array_loop, parse_key, object_loop, parse}
use xgboost.Json.Valid.{
  Sorted, IsValid, AreValid, AreValidMembers, IsReadable, AreReadable, AreReadableMembers,
}
use xgboost.Json.Render.{quoted, render, render_elements, render_members}
use xgboost.Json.Order.{
  append_elements, append_members, append_elements-no_element, append_members-no_member,
  append_elements-push_back, append_members-insert,
}
use xgboost.Json.Start.{peek-render}

parse_key-quoted :
    (k rest : List ℕ) → AreKept k → parse_key (quoted k ++ 58 ∷ rest) ≡ some (k, rest)
unfolding parse_key skip_spaces is_space peek_next_char get_next_non_space_char get_next_char
parse_key-quoted k rest kept = rw (parse_string-AreKept k (58 ∷ rest) kept) refl

module _ {F : FloatFormat} where
  -- A turn of the loop over an array, with what its call of Parse returned.
  array_loop-last :
      (p : List ℕ → Option (Json F × List ℕ)) (k : ℕ) (data_ : Elements F) (text rest : List ℕ)
      (v : Json F)
      → (peek_next_char text == 93) ≡ false
      → p text ≡ some (v, 93 ∷ rest)
      → array_loop refused p (suc k) data_ text ≡ some (push_back data_ v, rest)
  unfolding array_loop get_next_non_space_char get_next_char skip_spaces is_space
  array_loop-last p k data_ text rest v open_ read = rw (open_, read, array_loop) refl

  array_loop-more :
      (p : List ℕ → Option (Json F × List ℕ)) (k : ℕ) (data_ : Elements F) (text rest : List ℕ)
      (v : Json F)
      → (peek_next_char text == 93) ≡ false
      → p text ≡ some (v, 44 ∷ rest)
      → array_loop refused p (suc k) data_ text ≡ array_loop refused p k (push_back data_ v) rest
  unfolding array_loop get_next_non_space_char get_next_char skip_spaces is_space
  array_loop-more p k data_ text rest v open_ read = rw (open_, read, array_loop) refl

  abbrev pub Reads : Json F → Type 0
  Reads v =
      IsValid v
      → IsReadable v
      → (n : ℕ) (rest : List ℕ) → length (render v) < n
      → Ends rest
      → parse refused n (render v ++ rest) ≡ some (v, rest)

  abbrev pub ReadsElements : Elements F → Type 0
  ReadsElements xs =
      AreValid xs
      → AreReadable xs
      → (n k : ℕ) (data_ : Elements F) (rest : List ℕ) → length (render_elements xs) < n
      → length (render_elements xs) < k
      → array_loop refused (parse refused n) k data_ (render_elements xs ++ 93 ∷ rest)
        ≡ some (append_elements data_ xs, rest)

  -- What the loop does behind an element.
  array_loop-element :
      (v : Json F) (xs : Elements F) (n k : ℕ) (data_ : Elements F) (rest : List ℕ)
      → Reads v
      → ReadsElements xs
      → IsValid v × AreValid xs
      → IsReadable v × AreReadable xs
      → length (render_elements (element v xs)) < n
      → length (render_elements (element v xs)) < suc k
      → array_loop refused
          (parse refused n)
          (suc k)
          data_
          (render_elements (element v xs) ++ 93 ∷ rest)
        ≡ some (append_elements data_ (element v xs), rest)
  unfolding render_elements
  array_loop-element v no_element n k data_ rest ih ihs valid readable enough turns =
      let text : (render v ++ []) ++ 93 ∷ rest ≡ render v ++ 93 ∷ rest =
        ap (λ t. t ++ 93 ∷ rest) (append-nil (render v)) in
      let closing = peek-render v (93 ∷ rest) valid.0 readable.0 in
      let small : length (render v) < n = omega (arith, length-append (render v) []) in
      let read = ih valid.0 readable.0 n (93 ∷ rest) small refl in
      ap (array_loop refused (parse refused n) (suc k) data_) text
      ∙ array_loop-last (parse refused n) k data_ (render v ++ 93 ∷ rest) rest v closing read
      ∙ ap (λ d. some (d, rest))
          (sym (append_elements-no_element (push_back data_ v))
            ∙ append_elements-push_back data_ no_element v)
  array_loop-element v (element w xs) n k data_ rest ih ihs valid readable enough turns =
      let more = render_elements (element w xs) in
      let text : (render v ++ 44 ∷ more) ++ 93 ∷ rest ≡ render v ++ 44 ∷ (more ++ 93 ∷ rest) =
        append_assoc (render v) (44 ∷ more) (93 ∷ rest) in
      let closing = peek-render v (44 ∷ (more ++ 93 ∷ rest)) valid.0 readable.0 in
      let size = length-append (render v) (44 ∷ more) in
      let read = ih valid.0 readable.0 n (44 ∷ (more ++ 93 ∷ rest)) (omega arith) refl in
      let loop = ihs valid.1 readable.1 n k (push_back data_ v) rest (omega arith) (omega arith) in
      ap (array_loop refused (parse refused n) (suc k) data_) text
      ∙ array_loop-more (parse refused n) k data_ _ (more ++ 93 ∷ rest) v closing read
      ∙ loop
      ∙ ap (λ d. some (d, rest)) (append_elements-push_back data_ (element w xs) v)

  object_loop-last :
      (p : List ℕ → Option (Json F × List ℕ)) (n : ℕ) (data_ : Members F)
      (text behind rest : List ℕ) (key : List ℕ) (v : Json F)
      → parse_key text ≡ some (key, behind)
      → p behind ≡ some (v, 125 ∷ rest)
      → object_loop refused p (suc n) data_ text ≡ some (insert key v data_, rest)
  unfolding object_loop get_next_non_space_char get_next_char skip_spaces is_space
  object_loop-last p n data_ text behind rest key v name read = rw (name, read, object_loop) refl

  object_loop-more :
      (p : List ℕ → Option (Json F × List ℕ)) (n : ℕ) (data_ : Members F)
      (text behind rest : List ℕ) (key : List ℕ) (v : Json F)
      → parse_key text ≡ some (key, behind)
      → p behind ≡ some (v, 44 ∷ rest)
      → object_loop refused p (suc n) data_ text ≡ object_loop refused p n (insert key v data_) rest
  unfolding object_loop get_next_non_space_char get_next_char skip_spaces is_space
  object_loop-more p n data_ text behind rest key v name read = rw (name, read, object_loop) refl

  -- The members that are left go behind those that were read.
  abbrev pub ReadsMembers : Members F → Type 0
  ReadsMembers xs =
      AreValidMembers xs
      → AreReadableMembers xs
      → (n k : ℕ) (data_ : Members F) (rest : List ℕ) → Sorted (append_members data_ xs)
      → length (render_members xs) < n
      → length (render_members xs) < k
      → (xs ≢ no_member)
      → object_loop refused (parse refused n) k data_ (render_members xs ++ 125 ∷ rest)
        ≡ some (append_members data_ xs, rest)

  pub member-ne-no_member : (k : List ℕ) (v : Json F) (xs : Members F) → member k v xs ≢ no_member
  member-ne-no_member k v xs e = subst IsMember e tt
    where
      IsMember : Members F → Type 0
      IsMember no_member = ⊥
      IsMember (member k v xs) = Unit

  object_loop-member :
      (key : List ℕ) (v : Json F) (xs : Members F) (n k : ℕ) (data_ : Members F) (rest : List ℕ)
      → Reads v
      → ReadsMembers xs
      → IsValid v × AreValidMembers xs
      → AreKept key × (IsReadable v × AreReadableMembers xs)
      → Sorted (append_members data_ (member key v xs))
      → length (render_members (member key v xs)) < n
      → length (render_members (member key v xs)) < suc k
      → object_loop refused
          (parse refused n)
          (suc k)
          data_
          (render_members (member key v xs) ++ 125 ∷ rest)
        ≡ some (append_members data_ (member key v xs), rest)
  unfolding render_members
  object_loop-member key v no_member n k data_ rest ih ihs valid readable sorted enough turns =
      let text : (quoted key ++ 58 ∷ (render v ++ [])) ++ 125 ∷ rest
          ≡ quoted key ++ 58 ∷ (render v ++ 125 ∷ rest) =
        simp append_assoc in
      let size = length-append (quoted key) (58 ∷ (render v ++ [])) in
      let size' = length-append (render v) [] in
      let read = ih valid.0 readable.1.0 n (125 ∷ rest) (omega arith) refl in
      ap (object_loop refused (parse refused n) (suc k) data_) text
      ∙ object_loop-last (parse refused n) k data_ _ _ rest key v
          (parse_key-quoted key _ readable.0) read
      ∙ ap (λ d. some (d, rest))
          (sym (append_members-no_member (insert key v data_))
            ∙ append_members-insert key v data_ no_member sorted)
  object_loop-member key v (member key' w xs) n k data_ rest ih ihs valid readable sorted enough
        turns =
      let left = render_members (member key' w xs) in
      let text : (quoted key ++ 58 ∷ (render v ++ 44 ∷ left)) ++ 125 ∷ rest
          ≡ quoted key ++ 58 ∷ (render v ++ 44 ∷ (left ++ 125 ∷ rest)) =
        simp append_assoc in
      let size = length-append (quoted key) (58 ∷ (render v ++ 44 ∷ left)) in
      let size' = length-append (render v) (44 ∷ left) in
      let read = ih valid.0 readable.1.0 n (44 ∷ (left ++ 125 ∷ rest)) (omega arith) refl in
      let whole = append_members-insert key v data_ (member key' w xs) sorted in
      let loop =
        ihs valid.1 readable.1.1 n k (insert key v data_) rest (subst Sorted (sym whole) sorted)
          (omega arith) (omega arith) (member-ne-no_member key' w xs) in
      ap (object_loop refused (parse refused n) (suc k) data_) text
      ∙ object_loop-more (parse refused n) k data_ _ _ (left ++ 125 ∷ rest) key v
          (parse_key-quoted key _ readable.0) read
      ∙ loop
      ∙ ap (λ d. some (d, rest)) whole

  pub array_loop-end :
      (n k : ℕ) (data_ : Elements F) (rest : List ℕ)
      → 0 < k
      → array_loop refused (parse refused n) k data_ (93 ∷ rest)
        ≡ some (append_elements data_ no_element, rest)
  unfolding array_loop peek_next_char get_consecutive_char get_next_char
  array_loop-end n zero data_ rest h = absurd (omega arith)
  array_loop-end n (suc k) data_ rest h =
      ap (λ d. some (d, rest)) (sym (append_elements-no_element data_))

  pub array_loop-turn :
      (v : Json F) (xs : Elements F) (n k : ℕ) (data_ : Elements F) (rest : List ℕ)
      → Reads v
      → ReadsElements xs
      → IsValid v × AreValid xs
      → IsReadable v × AreReadable xs
      → length (render_elements (element v xs)) < n
      → length (render_elements (element v xs)) < k
      → array_loop refused (parse refused n) k data_ (render_elements (element v xs) ++ 93 ∷ rest)
        ≡ some (append_elements data_ (element v xs), rest)
  array_loop-turn v xs n zero data_ rest ih ihs valid readable enough turns = absurd (omega arith)
  array_loop-turn v xs n (suc k) data_ rest ih ihs valid readable enough turns =
      array_loop-element v xs n k data_ rest ih ihs valid readable enough turns

  pub object_loop-turn :
      (key : List ℕ) (v : Json F) (xs : Members F) (n k : ℕ) (data_ : Members F) (rest : List ℕ)
      → Reads v
      → ReadsMembers xs
      → IsValid v × AreValidMembers xs
      → AreKept key × (IsReadable v × AreReadableMembers xs)
      → Sorted (append_members data_ (member key v xs))
      → length (render_members (member key v xs)) < n
      → length (render_members (member key v xs)) < k
      → object_loop refused
          (parse refused n)
          k
          data_
          (render_members (member key v xs) ++ 125 ∷ rest)
        ≡ some (append_members data_ (member key v xs), rest)
  object_loop-turn key v xs n zero data_ rest ih ihs valid readable sorted enough turns =
      absurd (omega arith)
  object_loop-turn key v xs n (suc k) data_ rest ih ihs valid readable sorted enough turns =
      object_loop-member key v xs n k data_ rest ih ihs valid readable sorted enough turns
