-- ===== src/Common/Json.antt =====
-- JSON values as Python reads them. A number is kept as its literal, an object as its members in
-- order; equality compares members in order.
use mathlib.Core.Path.{◌≡◌, refl, ap}
use mathlib.Core.Logic.{◌↔◌}
use mathlib.Core.Bool.{Bool, true, false, ◌&&◌}
use native.Mathlib.Omega.{arith}
use ocr_d_core.Common.Tests.{Eq, and_true, true-and, list_beq, list_beq_iff, nat_eq}
use ocr_d_core.Common.Texts.{Text}

mutual
  pub data Json : Type 0 where
    null : Json
    bool : Bool → Json
    num : Text → Json
    str : Text → Json
    arr : Items → Json
    obj : Members → Json

  pub data Items : Type 0 where
    nil : Items
    cons : Json → Items → Items

  pub data Members : Type 0 where
    end : Members
    member : Text → Json → Members → Members

abbrev pub bool_beq : Bool → Bool → Bool
bool_beq true true = true
bool_beq false false = true
bool_beq _ _ = false

unfoldable mutual
  pub json_beq : Json → Json → Bool
  json_beq null null = true
  json_beq (bool a) (bool b) = bool_beq a b
  json_beq (num a) (num b) = list_beq a b
  json_beq (str a) (str b) = list_beq a b
  json_beq (arr a) (arr b) = items_beq a b
  json_beq (obj a) (obj b) = members_beq a b
  json_beq _ _ = false

  pub items_beq : Items → Items → Bool
  items_beq nil nil = true
  items_beq (cons x xs) (cons y ys) = json_beq x y && items_beq xs ys
  items_beq _ _ = false

  pub members_beq : Members → Members → Bool
  members_beq end end = true
  members_beq (member k x xs) (member l y ys) = list_beq k l && (json_beq x y && members_beq xs ys)
  members_beq _ _ = false

bool_beq_eq : (a b : Bool) → bool_beq a b ≡ true → a ≡ b
bool_beq_eq a b h = ground arith

member_path :
    {k l : Text} {x y : Json} {xs ys : Members}
    → k ≡ l
    → x ≡ y
    → xs ≡ ys
    → member k x xs ≡ member l y ys
member_path p q r = cc

mutual
  unfolding json_beq items_beq members_beq

  json_eq : (a b : Json) → json_beq a b ≡ true → a ≡ b
  json_eq null b h = ground arith
  json_eq (bool x) b h = ground arith
  json_eq (num x) (num y) h = ap num ((list_beq_iff x y).0 h)
  json_eq (num x) _ h = cc
  json_eq (str x) (str y) h = ap str ((list_beq_iff x y).0 h)
  json_eq (str x) _ h = cc
  json_eq (arr x) (arr y) h = ground (arith, items_eq x y)
  json_eq (arr x) _ h = ground arith
  json_eq (obj x) (obj y) h = ground (arith, members_eq x y)
  json_eq (obj x) _ h = ground arith

  items_eq : (a b : Items) → items_beq a b ≡ true → a ≡ b
  items_eq nil b h = ground arith
  items_eq (cons x xs) (cons y ys) h = ground (arith, json_eq x y, items_eq xs ys)
  items_eq (cons x xs) nil h = cc

  members_eq : (a b : Members) → members_beq a b ≡ true → a ≡ b
  members_eq end b h = ground arith
  members_eq (member k x xs) (member l y ys) h =
      let (key, rest) = and_true (list_beq k l) _ h in
      let (value, others) = and_true (json_beq x y) (members_beq xs ys) rest in
      member_path ((list_beq_iff k l).0 key) (json_eq x y value) (members_eq xs ys others)
  members_eq (member k x xs) end h = cc

mutual
  unfolding json_beq items_beq members_beq

  json_beq_refl : (a : Json) → json_beq a a ≡ true
  json_beq_refl null = refl
  json_beq_refl (bool x) = ground arith
  json_beq_refl (num x) = (list_beq_iff x x).1 refl
  json_beq_refl (str x) = (list_beq_iff x x).1 refl
  json_beq_refl (arr x) = items_beq_refl x
  json_beq_refl (obj x) = members_beq_refl x

  items_beq_refl : (a : Items) → items_beq a a ≡ true
  items_beq_refl nil = refl
  items_beq_refl (cons x xs) = ground (arith, json_beq_refl x, items_beq_refl xs)

  members_beq_refl : (a : Members) → members_beq a a ≡ true
  members_beq_refl end = refl
  members_beq_refl (member k x xs) =
      true-and ((list_beq_iff k k).1 refl) (true-and (json_beq_refl x) (members_beq_refl xs))

pub json_beq_iff : (a b : Json) → (json_beq a b ≡ true) ↔ (a ≡ b)
json_beq_iff a b = (json_eq a b, λ e. rw e (json_beq_refl b))

instance abbrev pub json_eq_test : Eq Json
json_eq_test = record { same = json_beq; same_iff = json_beq_iff }
