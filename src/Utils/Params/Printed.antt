-- ===== src/Utils/Params/Printed.antt =====
-- JSON objects that json.dumps has printed, as parse_json_string_or_file of src/ocrd_utils/str.py
-- reads them.
use ocr_d_core.Common.{
  lstrip, rstrip, strip, ◌≡◌, refl, ap, sym, ◌∙◌, ℕ, zero, true, false, some, [], ◌∷◌, ◌++◌, Text,
  list_eq, nat_eq, nat_beq, nat_beq_iff, contains, arith,
}
use ocr_d_core.Common.Json.{Json, Members}
use ocr_d_core.Common.Exec.{ok}
use ocr_d_core.Tasks.{has_member}
use ocr_d_core.Utils.Params.{
  Reader, os_error, comment_length, without_comments, parse_json_string_with_comments, only_spaces,
  set_member, merge_members, parse_value, parse_values, parse_json_string_or_file,
}

-- Members in a row.
unfoldable pub append_members : Members → Members → Members
append_members Members.end ys = ys
append_members (Members.member k v xs) ys = Members.member k v (append_members xs ys)

-- Keys that differ from one another and from those before them.
abbrev pub IsFresh : Members → Members → Type 0
IsFresh before Members.end = Unit
IsFresh before (Members.member k v members) =
    (has_member k before ≡ false)
    × IsFresh (append_members before (Members.member k v Members.end)) members

append_members_assoc :
    (xs ys zs : Members)
    → append_members (append_members xs ys) zs ≡ append_members xs (append_members ys zs)
unfolding append_members
append_members_assoc Members.end ys zs = refl
append_members_assoc (Members.member k v xs) ys zs =
    ap (Members.member k v) (append_members_assoc xs ys zs)

append_members-end : (xs : Members) → append_members xs Members.end ≡ xs
unfolding append_members
append_members-end Members.end = refl
append_members-end (Members.member k v xs) = ap (Members.member k v) (append_members-end xs)

set_member-fresh :
    (k : Text) (v : Json) (members : Members)
    → has_member k members ≡ false
    → set_member k v members ≡ append_members members (Members.member k v Members.end)
unfolding set_member append_members has_member
set_member-fresh k v Members.end h = refl
set_member-fresh k v (Members.member l w members) h = ground (arith, set_member-fresh k v members)

merge_members-fresh :
    (before members : Members)
    → IsFresh before members
    → merge_members before members ≡ append_members before members
unfolding merge_members append_members
merge_members-fresh before Members.end h = sym (append_members-end before)
merge_members-fresh before (Members.member k v members) h =
    ap (λ b. merge_members b members) (set_member-fresh k v before h.0)
    ∙ merge_members-fresh (append_members before (Members.member k v Members.end)) members h.1
    ∙ append_members_assoc before (Members.member k v Members.end) members

-- An object with distinct keys, added to the empty one.
pub merge_members-end :
    (members : Members) → IsFresh Members.end members → merge_members Members.end members ≡ members
unfolding append_members
merge_members-end members h = merge_members-fresh Members.end members h

-- The text of an object: it is in one line and between braces, has no single quote, is not the
-- name of a file, and is read as the object.
pub record IsPrinted (r : Reader) (members : Members) : Type 0 where
  pub body : Text
  pub dumped : r.json_dumps (Json.obj members) ≡ b'{' ∷ body ++ b'}' ∷ []
  pub quote_free : contains b'\'' (r.json_dumps (Json.obj members)) ≡ false
  pub one_line : contains 10 (r.json_dumps (Json.obj members)) ≡ false
  pub no_file : r.open_text (r.json_dumps (Json.obj members)) ≡ os_error
  pub loaded : r.json_loads (r.json_dumps (Json.obj members)) ≡ some (Json.obj members)
  pub opening : r.is_space b'{' ≡ false
  pub closing : r.is_space b'}' ≡ false
  pub distinct : IsFresh Members.end members

module _ (r : Reader) where
  rstrip-end :
      (t : Text) (c : ℕ) → r.is_space c ≡ false → rstrip r.is_space (t ++ c ∷ []) ≡ t ++ c ∷ []
  unfolding rstrip
  rstrip-end [] c h = rw h refl
  rstrip-end (d ∷ []) c h = ground (arith, rstrip-end [] c h)
  rstrip-end (d ∷ e ∷ t) c h = ground (arith, rstrip-end (e ∷ t) c h)

  without_comments-line : (t : Text) → contains 10 t ≡ false → without_comments r zero false t ≡ t
  unfolding without_comments contains
  without_comments-line [] h = refl
  without_comments-line (c ∷ t) h =
      let other : nat_beq c 10 ≡ false = ground (arith, nat_beq_iff c 10, nat_beq_iff 10 c) in
      rw other (ap (c ∷◌) (without_comments-line t (ground arith)))

  comment_length-object : (t : Text) → r.is_space b'{' ≡ false → comment_length r (b'{' ∷ t) ≡ 0
  unfolding comment_length
  comment_length-object t s = rw s refl

  without_comments-object :
      (t : Text)
      → r.is_space b'{' ≡ false
      → contains 10 (b'{' ∷ t) ≡ false
      → without_comments r zero true (b'{' ∷ t) ≡ b'{' ∷ t
  unfolding without_comments contains
  without_comments-object t s h =
      ground (arith, comment_length-object t s, without_comments-line t h)

  lstrip-object : (t : Text) → r.is_space b'{' ≡ false → lstrip r.is_space (b'{' ∷ t) ≡ b'{' ∷ t
  unfolding lstrip
  lstrip-object t o = rw o refl

  strip-object :
      (t : Text)
      → r.is_space b'{' ≡ false
      → r.is_space b'}' ≡ false
      → strip r.is_space (b'{' ∷ t ++ b'}' ∷ []) ≡ b'{' ∷ t ++ b'}' ∷ []
  strip-object t o c =
      ap (lstrip r.is_space) (rstrip-end (b'{' ∷ t) b'}' c) ∙ lstrip-object (t ++ b'}' ∷ []) o

  only_spaces-object : (t : Text) → r.is_space b'{' ≡ false → only_spaces r (b'{' ∷ t) ≡ false
  unfolding only_spaces
  only_spaces-object t o = rw o refl

-- What was printed is read.
module _ (r : Reader) (members : Members) (p : IsPrinted r members) where
  abbrev text : Text
  text = r.json_dumps (Json.obj members)

  parse_value-dumped : parse_value r text ≡ ok members
  unfolding parse_value parse_json_string_with_comments
  parse_value-dumped =
      let stripped : strip r.is_space text ≡ text =
        ap (strip r.is_space) p.dumped ∙ strip-object r p.body p.opening p.closing ∙ sym p.dumped in
      let line : contains 10 (b'{' ∷ p.body ++ b'}' ∷ []) ≡ false =
        ap (contains 10) (sym p.dumped) ∙ p.one_line in
      let comments : without_comments r zero true text ≡ text =
        ap (without_comments r zero true) p.dumped
        ∙ without_comments-object r (p.body ++ b'}' ∷ []) p.opening line
        ∙ sym p.dumped in
      rw (p.no_file, stripped, comments, p.loaded, parse_value, parse_json_string_with_comments)
        refl

  pub parse_json_string_or_file-dumped : parse_json_string_or_file r (text ∷ []) ≡ ok members
  unfolding parse_values
  parse_json_string_or_file-dumped =
      let blank : only_spaces r text ≡ false =
        ap (only_spaces r) p.dumped ∙ only_spaces-object r (p.body ++ b'}' ∷ []) p.opening in
      rw (blank, parse_value-dumped, parse_values, parse_json_string_or_file)
        (ap ok (merge_members-end members p.distinct))
