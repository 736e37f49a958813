-- ===== src/Validators/Order.antt =====
-- The order in which src/ocrd_validators/page_validator.py reads the elements of a page:
-- page_get_reading_order, and the order of children in validate_consistency.
use ocr_d_core.Common.{
  ℕ, Bool, true, false, Option, none, some, List, [], ◌∷◌, ◌++◌, map, Text, nat_eq, list_eq,
  option_eq, if◌then◌else◌, ltb, is_some, ◌&&◌,
}
use ocr_d_core.Common.Sort.{sort_by}
use ocr_d_core.Common.Dict.{Dict, get, put}
use ocr_d_core.Common.Exec.{Result, ok, err, attribute_error}

-- The references of a group: a RegionRef or RegionRefIndexed, or a group with its references. An
-- element of an ordered group has an index. The references come before the groups, as in the source.
pub data Refs : Type 0 where
  nil : Refs
  region_ref : Option Text → Option ℕ → Refs → Refs
  group_ref : Option Text → Option ℕ → (is_ordered : Bool) → Refs → Refs → Refs

-- A value of the dictionary `ro`: the index, and whether `parent_object_` is an ordered group.
pub record Place : Type 0 where
  pub index : Option ℕ
  pub in_ordered : Bool

-- `page_get_reading_order`, for the references of a group
unfoldable pub page_get_reading_order :
    Bool → Refs → Dict (Option Text) Place → Dict (Option Text) Place
page_get_reading_order ordered nil ro = ro
page_get_reading_order ordered (region_ref key index refs) ro =
    page_get_reading_order ordered refs
      (put key (record { index = index; in_ordered = ordered }) ro)
page_get_reading_order ordered (group_ref key index inner_ordered inner refs) ro =
    page_get_reading_order ordered refs (
      page_get_reading_order inner_ordered inner
        (put key (record { index = index; in_ordered = ordered }) ro))

-- A reference of an unordered group has no attribute `index`.
abbrev pub index_of : Option Place → Option ℕ
index_of none = none
index_of (some place) = place.index

abbrev pub starts_ordered : Option Place → Bool
starts_ordered none = false
starts_ordered (some place) = place.in_ordered

module _ {A : Type 0} where
  unfoldable pub all_placed : Dict (Option Text) Place → List (Text × A) → Bool
  all_placed ro [] = true
  all_placed ro ((id, a) ∷ rest) =
      let others = all_placed ro rest in if is_some (get (some id) ro) then others else false

  -- A child with its index, before the others.
  abbrev pub add_index : Option ℕ → A → Result (List (ℕ × A)) → Result (List (ℕ × A))
  add_index none a others = err attribute_error
  add_index (some i) a (err e) = err e
  add_index (some i) a (ok xs) = ok ((i, a) ∷ xs)

  -- `readingOrder[child.id].index`, for each child
  unfoldable pub with_index : Dict (Option Text) Place → List (Text × A) → Result (List (ℕ × A))
  with_index ro [] = ok []
  with_index ro ((id, a) ∷ rest) = add_index (index_of (get (some id) ro)) a (with_index ro rest)

  -- Whether text regions are sorted: all of them have a place, the first one in an ordered group.
  abbrev pub is_sorted_group : Dict (Option Text) Place → List (Text × A) → Bool
  is_sorted_group ro [] = false
  is_sorted_group ro ((id, a) ∷ rest) =
      all_placed ro ((id, a) ∷ rest) && starts_ordered (get (some id) ro)

  -- `sorted` by the index
  abbrev pub sort_children : Result (List (ℕ × A)) → Result (List A)
  sort_children (err e) = err e
  sort_children (ok xs) = ok (map (λ x. x.1) (sort_by (λ x y. ltb x.0 y.0) [] xs))

  -- The order of text regions, each with its id.
  unfoldable pub in_reading_order : Dict (Option Text) Place → List (Text × A) → Result (List A)
  in_reading_order ro children =
      if is_sorted_group ro children
      then sort_children (with_index ro children)
      else ok (map (λ c. c.1) children)

  -- `list(reversed(children))`
  unfoldable pub reversed : List A → List A
  reversed [] = []
  reversed (a ∷ rest) = reversed rest ++ a ∷ []
