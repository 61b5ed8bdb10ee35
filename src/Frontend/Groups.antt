-- ===== src/Frontend/Groups.antt =====
-- The grouping of the inbox and of the run list: a `Map` from a key to the items in order.
use code_delta.Prelude.{
  ◌≡◌, refl, sym, ap, ◌∙◌, inl, inr, List, [], ◌∷◌, ◌++◌, map, append_assoc, append-nil,
  if◌then◌else◌, Bool-cases, filter,
}
use code_delta.Text.Equal.{is_eq→eq, ne_of_is_eq, is_eq_of_ne}
use code_delta.Text.{Text, is_eq, has_text, add_all, set_of}

module _ {A : Type 0} where
  -- groups.set(key, [...(groups.get(key) || []), item])
  unfoldable pub add_item : Text → A → List (Text × List A) → List (Text × List A)
  unfolding is_eq
  add_item key x [] = (key, x ∷ []) ∷ []
  add_item key x ((k, xs) ∷ groups) =
      let rest = add_item key x groups in
      if is_eq k key then (k, xs ++ x ∷ []) ∷ groups else (k, xs) ∷ rest

  unfoldable pub group_from : (A → Text) → List (Text × List A) → List A → List (Text × List A)
  unfolding add_item
  group_from key groups [] = groups
  group_from key groups (x ∷ xs) = group_from key (add_item (key x) x groups) xs

  -- The entries of the map, in the order in which the keys first occur.
  unfoldable pub group_items : (A → Text) → List A → List (Text × List A)
  unfolding group_from
  group_items key xs = group_from key [] xs

  -- groups.get(key) || []
  unfoldable pub items_at : Text → List (Text × List A) → List A
  unfolding is_eq
  items_at key [] = []
  items_at key ((k, xs) ∷ groups) = if is_eq k key then xs else items_at key groups

  abbrev pub group_keys : List (Text × List A) → List Text
  group_keys groups = map (λ g. g.0) groups

  items_at-add_item :
      (k key : Text) (x : A) (groups : List (Text × List A))
      → items_at k (add_item key x groups)
        ≡ items_at k groups ++ (if is_eq key k then x ∷ [] else [])
  unfolding items_at add_item
  items_at-add_item k key x [] = elim (Bool-cases (is_eq key k)) [ inl h ↦ rw h | inr h ↦ rw h ]
  items_at-add_item k key x ((j, xs) ∷ groups) =
      let hrest = items_at-add_item k key x groups in
      elim (Bool-cases (is_eq j key)) [
        | inl h ↦
            let same = ap (λ t. is_eq t k) (sym (is_eq→eq j key h)) in
            elim (Bool-cases (is_eq j k)) [
              | inl g ↦ rw (h, same, g)
              | inr g ↦ rw (h, same, g, append-nil)
            ]
        | inr h ↦ elim (Bool-cases (is_eq j k)) [
          | inl g ↦
              let other = is_eq_of_ne key k (λ e. ne_of_is_eq j key h (is_eq→eq j k g ∙ sym e)) in
              rw (h, g, other, append-nil)
          | inr g ↦ rw (h, g, hrest)
        ]
      ]

  group_keys-add_item :
      (key : Text) (x : A) (groups : List (Text × List A))
      → group_keys (add_item key x groups) ≡ (
          if has_text key (group_keys groups)
          then group_keys groups
          else group_keys groups ++ key ∷ [])
  unfolding add_item has_text
  group_keys-add_item key x [] = refl
  group_keys-add_item key x ((j, xs) ∷ groups) =
      let hrest = group_keys-add_item key x groups in
      elim (Bool-cases (is_eq j key)) [
        | inl h ↦ rw h
        | inr h ↦ elim (Bool-cases (has_text key (group_keys groups))) [
          | inl g ↦ rw (h, hrest, g)
          | inr g ↦ rw (h, hrest, g)
        ]
      ]

  items_at-group_from :
      (key : A → Text) (k : Text) (groups : List (Text × List A)) (xs : List A)
      → items_at k (group_from key groups xs)
        ≡ items_at k groups ++ filter (λ x. is_eq (key x) k) xs
  unfolding group_from
  items_at-group_from key k groups [] = sym (append-nil _)
  items_at-group_from key k groups (x ∷ xs) =
      let hrest = items_at-group_from key k (add_item (key x) x groups) xs in
      elim (Bool-cases (is_eq (key x) k)) [
        | inl h ↦ rw (hrest, items_at-add_item k (key x) x groups, h, append_assoc)
        | inr h ↦ rw (hrest, items_at-add_item k (key x) x groups, h, append-nil)
      ]

  group_keys-group_from :
      (key : A → Text) (groups : List (Text × List A)) (xs : List A)
      → group_keys (group_from key groups xs) ≡ add_all (group_keys groups) (map key xs)
  unfolding group_from add_all
  group_keys-group_from key groups [] = refl
  group_keys-group_from key groups (x ∷ xs) = rw (
    group_keys-group_from key (add_item (key x) x groups) xs,
    group_keys-add_item (key x) x groups,
  )

  -- The groups stand under the distinct keys of the items, in the order of their first items, and
  -- the group of a key holds exactly the items with that key, in their order: no item is lost,
  -- doubled or moved to another group.
  pub group_items_lem :
      (key : A → Text) (xs : List A)
      → (group_keys (group_items key xs) ≡ set_of (map key xs))
        × ((k : Text) → items_at k (group_items key xs) ≡ filter (λ x. is_eq (key x) k) xs)
  unfolding group_items set_of items_at
  group_items_lem key xs = (group_keys-group_from key [] xs, λ k. items_at-group_from key k [] xs)
