-- ===== src/Validators/Page/Returns.antt =====
-- When a validation returns.
use ocr_d_core.Common.{
  ℕ, Text, codes, Bool, true, false, ◌&&◌, Option, none, some, is_some, some_eq, List, [], ◌∷◌, map,
  Bool-cases, Option-cases, and_true, if◌then◌else◌, ◌==◌, nat_eq, list_eq, option_eq, arith, ◌≡◌,
  refl, ap, sym, subst, ◌∙◌, inl, inr,
}
use ocr_d_core.Common.Dict.{Dict, get, put, get-put}
use ocr_d_core.Common.Exec.{Result, ok}
use ocr_d_core.Validators.Elements.{Geometry, Kind, Element, Nodes, Groups}
use ocr_d_core.Validators.Texts.{Characters}
use ocr_d_core.Validators.Order.{
  Refs, region_ref, group_ref, Place, page_get_reading_order, index_of, add_index, all_placed,
  is_sorted_group, with_index, sort_children, in_reading_order,
}
use ocr_d_core.Validators.Checks.{
  Context, Checked, Error, Loop, is_glyph, enter, order_in, check_polygon, check_children,
  arrange_group, check_groups, check_element,
}
use ocr_d_core.Validators.Checks.Repeat.{check_groups_ok}
use ocr_d_core.Validators.Checks.Again.{check_element_ok}
use ocr_d_core.Validators.Page.{
  also, check_with, with_flag, validate_nodes, validate_groups, validate_page, PcGts,
  reading_order_of, start, strategy_of, consistency_of, is_part_of, report_of, validate_at,
  validate,
}
use ocr_d_core.Validators.Page.Steps.{validate_known, validate_glyph, validate_other}

-- Whether every reference below a group has an index: all its groups are ordered.
abbrev pub all_indexed : Refs → Bool
all_indexed Refs.nil = true
all_indexed (region_ref key index refs) = is_some index && all_indexed refs
all_indexed (group_ref key index is_ordered inner refs) =
    is_some index && (all_indexed inner && all_indexed refs)

abbrev pub order_indexed : Option (Bool × Refs) → Bool
order_indexed none = true
order_indexed (some (is_ordered, refs)) = all_indexed refs

abbrev Indexed : Dict (Option Text) Place → Type 0
Indexed ro = (key : Option Text) (p : Place) → get key ro ≡ some p → is_some p.index ≡ true

Indexed-put :
    (key : Option Text) (p : Place) (ro : Dict (Option Text) Place)
    → is_some p.index ≡ true
    → Indexed ro
    → Indexed (put key p ro)
Indexed-put key p ro i h k q e = elim (Bool-cases (key == k)) [
  | inl t ↦
      subst (λ (o : Place). is_some o.index ≡ true)
        (some_eq (ap (λ b. if b then some p else get k ro) (sym t) ∙ sym (get-put key k p ro) ∙ e))
        i
  | inr f ↦ h k q (ap (λ b. if b then some p else get k ro) (sym f) ∙ sym (get-put key k p ro) ∙ e)
]

Indexed-page_get_reading_order :
    (ordered : Bool) (refs : Refs) (ro : Dict (Option Text) Place)
    → all_indexed refs ≡ true
    → Indexed ro
    → Indexed (page_get_reading_order ordered refs ro)
unfolding page_get_reading_order
Indexed-page_get_reading_order ordered Refs.nil ro t h = h
Indexed-page_get_reading_order ordered (region_ref key index refs) ro t h =
    let (i, rest) = and_true (is_some index) _ t in
    Indexed-page_get_reading_order ordered refs _ rest (Indexed-put key _ ro i h)
Indexed-page_get_reading_order ordered (group_ref key index is_ordered inner refs) ro t h =
    let (i, others) = and_true (is_some index) _ t in
    let (below, rest) = and_true (all_indexed inner) _ others in
    Indexed-page_get_reading_order ordered refs _ rest
      (Indexed-page_get_reading_order is_ordered inner _ below (Indexed-put key _ ro i h))

reading_order_of-Indexed :
    (order : Option (Bool × Refs)) → order_indexed order ≡ true → Indexed (reading_order_of order)
unfolding reading_order_of get
reading_order_of-Indexed none t key p e = cc
reading_order_of-Indexed (some (is_ordered, refs)) t key p e =
    Indexed-page_get_reading_order is_ordered refs [] t (λ k q f. cc) key p e

abbrev Returns : {A : Type 0} → Result A → Type 0
Returns {A} x = (a : A) × (x ≡ ok a)

placed-inv :
    (o : Option Place) (b : Bool)
    → (if is_some o then b else false) ≡ true
    → (is_some o ≡ true) × (b ≡ true)
placed-inv none b h = cc
placed-inv (some p) b h = (refl, h)

index_of-some :
    (o : Option Place)
    → ((p : Place) → o ≡ some p → is_some p.index ≡ true)
    → is_some o ≡ true
    → is_some (index_of o) ≡ true
index_of-some none h t = cc
index_of-some (some p) h t = h p refl

module _ {A : Type 0} where
  add_index-Returns :
      (o : Option ℕ) (x : A) (others : Result (List (ℕ × A)))
      → is_some o ≡ true
      → Returns others
      → Returns (add_index o x others)
  add_index-Returns none x others t r = absurd (ground arith)
  add_index-Returns (some i) x others t (xs, r) = ((i, x) ∷ xs, ap (add_index (some i) x) r)

  all_placed_of_sorted :
      (ro : Dict (Option Text) Place) (xs : List (Text × A))
      → is_sorted_group ro xs ≡ true
      → all_placed ro xs ≡ true
  all_placed_of_sorted ro [] t = absurd (ground arith)
  all_placed_of_sorted ro ((i, x) ∷ xs) t = (and_true (all_placed ro ((i, x) ∷ xs)) _ t).0

  sort_children-Returns : (x : Result (List (ℕ × A))) → Returns x → Returns (sort_children x)
  sort_children-Returns x (xs, r) = (_, ap sort_children r)

module _ {A : Type 0} (ro : Dict (Option Text) Place) (h : Indexed ro) where
  with_index-Returns : (xs : List (Text × A)) → all_placed ro xs ≡ true → Returns (with_index ro xs)
  unfolding with_index all_placed
  with_index-Returns [] t = ([], refl)
  with_index-Returns ((i, x) ∷ xs) t =
      let (here, rest) = placed-inv (get (some i) ro) (all_placed ro xs) t in
      add_index-Returns (index_of (get (some i) ro)) x (with_index ro xs)
        (index_of-some (get (some i) ro) (h (some i)) here) (with_index-Returns xs rest)

  in_reading_order-Returns : (xs : List (Text × A)) → Returns (in_reading_order ro xs)
  unfolding in_reading_order
  in_reading_order-Returns xs = elim (Bool-cases (is_sorted_group ro xs)) [
    | inl t ↦
        subst
          (λ b. Returns (if b then sort_children (with_index ro xs) else ok (map (λ c. c.1) xs)))
          (sym t)
          (sort_children-Returns (with_index ro xs)
            (with_index-Returns xs (all_placed_of_sorted ro xs t)))
    | inr f ↦
        subst
          (λ b. Returns (if b then sort_children (with_index ro xs) else ok (map (λ c. c.1) xs)))
          (sym f) (_, refl)
  ]

module _ (g : Geometry) (chars : Characters) where
  check_groups-Returns :
      (c : Context) (poly : Option g.Polygon) (xs : List (Bool × List (Checked g))) (s : Loop g)
      → Indexed c.reading_order
      → Returns (check_groups g c poly xs s)
  unfolding check_groups
  check_groups-Returns c poly [] s h = (s, refl)
  check_groups-Returns c poly ((b, x) ∷ xs) s h =
      let (ys, p) = arrange_group-Returns c h b x in
      let (t, q) = check_groups-Returns c poly xs (check_children g c poly ys s) h in
      (t, check_groups_ok g c poly b x ys xs s p ∙ q)
    where
      arrange_group-Returns :
          (c : Context)
          → Indexed c.reading_order
          → (b : Bool) (x : List (Checked g)) → Returns (arrange_group g c b x)
      arrange_group-Returns c h true x = in_reading_order-Returns c.reading_order h _
      arrange_group-Returns c h false x = (x, refl)

  check_element-Returns :
      (c : Context) (e : Element g) (gs : List (Bool × List (Checked g))) (xs : List (Checked g))
      → Indexed c.reading_order
      → Returns (check_element g chars c e gs xs)
  check_element-Returns c e gs xs h =
      let (t, p) = check_groups-Returns c (check_polygon g c e).0 gs (check_polygon g c e).1 h in
      (_, check_element_ok g chars c e gs xs t p)

  order_in-reading_order :
      (k : Kind) (e : Element g) (c : Context) → (order_in g k e c).reading_order ≡ c.reading_order
  order_in-reading_order Kind.page e c = refl
  order_in-reading_order Kind.text_region e c = refl
  order_in-reading_order Kind.line e c = refl
  order_in-reading_order Kind.word e c = refl
  order_in-reading_order Kind.region e c = refl
  order_in-reading_order Kind.glyph e c = refl

  enter-Indexed :
      (e : Element g) (c : Context) → Indexed c.reading_order → Indexed (enter g e c).reading_order
  enter-Indexed e c h = subst Indexed (sym (order_in-reading_order e.kind e c)) h

  also-Returns :
      {A : Type 0} (x : Result A) (others : Result (List A))
      → Returns x
      → Returns others
      → Returns (also x others)
  also-Returns x others (a, p) (rest, q) = (a ∷ rest, rw (p, q) refl)

  check_with-Returns :
      (c : Context) (e : Element g) (gs : Result (List (Bool × List (Checked g))))
      (xs : Result (List (Checked g)))
      → Indexed c.reading_order
      → Returns gs
      → Returns xs
      → Returns (check_with g chars c e gs xs)
  check_with-Returns c e gs xs h (hs, p) (ys, q) =
      let (r, checked) = check_element-Returns c e hs ys h in (r, rw (p, q) checked)

  mutual
    unfolding validate_nodes validate_groups

    validate_nodes-Returns :
        (c : Context) (ns : Nodes g)
        → Indexed c.reading_order
        → Returns (validate_nodes g chars c ns)
    validate_nodes-Returns c Nodes.nil h = ([], refl)
    validate_nodes-Returns c (Nodes.cons e gs ns rest) h = elim (Bool-cases (is_glyph e.kind)) [
      | inl k ↦
          subst Returns (sym (validate_glyph g chars c e gs ns rest k))
            (also-Returns _ _ (_, refl) (validate_nodes-Returns c rest h))
      | inr k ↦ subst Returns (sym (validate_other g chars c e gs ns rest k)) (
          also-Returns _ _
            (check_with-Returns (enter g e c) e _ _ (enter-Indexed e c h)
              (validate_groups-Returns (enter g e c) gs (enter-Indexed e c h))
              (validate_nodes-Returns (enter g e c) ns (enter-Indexed e c h)))
            (validate_nodes-Returns c rest h))
    ]

    validate_groups-Returns :
        (c : Context) (gs : Groups g)
        → Indexed c.reading_order
        → Returns (validate_groups g chars c gs)
    validate_groups-Returns c Groups.end h = ([], refl)
    validate_groups-Returns c (Groups.group b ns gs) h =
        let (xs, p) = validate_nodes-Returns c ns h in
        also-Returns _ _ (_, ap (with_flag g b) p) (validate_groups-Returns c gs h)

  -- A validation with a known level and a known strategy returns if every reference of the reading
  -- order has an index, as those of ordered groups have.
  pub validate-returns :
      (name strategy : Text) (baseline coords : Bool) (doc : PcGts g)
      → is_some (consistency_of name) ≡ true
      → is_part_of strategy (codes "first") ≡ true
      → order_indexed doc.reading_order ≡ true
      → (errors : List Error) × (after : PcGts g) × (validate g chars name strategy baseline coords
            doc
          ≡ ok (errors, after))
  unfolding validate_page
  validate-returns name strategy baseline coords doc k p t =
      elim (Option-cases (consistency_of name)) [
        | inl n ↦ absurd (ground arith)
        | inr (level, l) ↦
            let c = start g chars level (strategy_of strategy) baseline coords doc in
            let entered = enter-Indexed doc.page c (reading_order_of-Indexed doc.reading_order t) in
            let (r, returns) =
              check_with-Returns (enter g doc.page c) doc.page _ (ok []) entered
                (validate_groups-Returns (enter g doc.page c) doc.regions entered) ([], refl) in
            (
              r.errors,
              record doc { page = r.element; regions = r.groups },
              validate_known g chars name strategy baseline coords doc p
                  ∙ ap (λ o. validate_at g chars o (strategy_of strategy) baseline coords doc) l
                  ∙ ap (report_of g chars doc) returns,
            )
      ]
