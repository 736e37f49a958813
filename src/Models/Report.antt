-- ===== src/Models/Report.antt =====
-- ValidationReport of src/ocrd_models/report.py, with its messages as texts.
use ocr_d_core.Common.{
  Bool, ◌&&◌, ◌||◌, not, List, [], ◌∷◌, ◌++◌, Text, codes, if◌then◌else◌, is_nonempty, length, ◌≡◌,
  refl, arith,
}
use ocr_d_core.Utils.Strings.{to_decimal}

pub record ValidationReport : Type 0 where
  pub notices : List Text
  pub warnings : List Text
  pub errors : List Text

abbrev pub new_report : ValidationReport
new_report = record { notices = []; warnings = []; errors = [] }

abbrev pub is_valid : ValidationReport → Bool
is_valid r = not (is_nonempty r.warnings) && not (is_nonempty r.errors)

-- ` %s name` with the number of messages, if there are any
abbrev pub counted : Text → List Text → Text
counted name [] = []
counted name (m ∷ messages) = codes " " ++ to_decimal (length (m ∷ messages)) ++ codes " " ++ name

-- `__str__`
unfoldable pub to_str : ValidationReport → Text
to_str r =
    let counts =
      codes "["
      ++ counted (codes "warnings") r.warnings
      ++ counted (codes "errors") r.errors
      ++ counted (codes "notices") r.notices
      ++ codes " ]" in
    (if is_valid r then codes "OK" else codes "INVALID")
    ++ (if not (is_valid r) || is_nonempty r.notices then counts else [])

-- One line for each message.
unfoldable pub message_lines : Text → List Text → Text
message_lines k [] = []
message_lines k (m ∷ messages) =
    codes "\n  <" ++ k ++ codes ">" ++ m ++ codes "</" ++ k ++ codes ">" ++ message_lines k messages

unfoldable pub to_xml : ValidationReport → Text
to_xml r =
    codes "<report valid=\""
    ++ (if is_valid r then codes "true" else codes "false")
    ++ codes "\">"
    ++ message_lines (codes "warning") r.warnings
    ++ message_lines (codes "error") r.errors
    ++ message_lines (codes "notice") r.notices
    ++ codes "\n</report>"

abbrev pub add_warning : Text → ValidationReport → ValidationReport
add_warning m r = record r { warnings = r.warnings ++ m ∷ [] }

abbrev pub add_error : Text → ValidationReport → ValidationReport
add_error m r = record r { errors = r.errors ++ m ∷ [] }

abbrev pub add_notice : Text → ValidationReport → ValidationReport
add_notice m r = record r { notices = r.notices ++ m ∷ [] }

abbrev pub merge_report : ValidationReport → ValidationReport → ValidationReport
merge_report r other = record {
  notices = r.notices ++ other.notices;
  warnings = r.warnings ++ other.warnings;
  errors = r.errors ++ other.errors;
}

is_nonempty-append :
    {A : Type 0} (xs ys : List A) → is_nonempty (xs ++ ys) ≡ (is_nonempty xs || is_nonempty ys)
is_nonempty-append [] ys = refl
is_nonempty-append (x ∷ xs) ys = refl

-- A merged report is valid exactly if both are.
is_valid-merge_report :
    (a b : ValidationReport) → is_valid (merge_report a b) ≡ (is_valid a && is_valid b)
is_valid-merge_report a b =
    ground (arith, is_nonempty-append a.warnings b.warnings, is_nonempty-append a.errors b.errors)
