-- ===== src/Permissions/Tests.antt =====
-- Calls of a shell tool, and the theorems at concrete inputs.
use cogentrex.Prelude.{All, arith, ◌≡◌, ◌⊎◌, refl, true, false, none, List, [], ◌∷◌, String}
use cogentrex.Pricing.{casefold}
use cogentrex.Policy.{any}
use cogentrex.Permissions.{
  auto_approve_safe, low, Value, text, array, object, Fields, no_field, field, no_item, item,
  Evaluator, new_evaluator, flatten, names_command, evaluate, protected_argument, path_keys,
  flatten_fields, flatten_items, Denial, denied, deny_each, record_denial,
}
use cogentrex.Permissions.Laws.{deny_each-restricts, Loosened}
use cogentrex.Permissions.Guards.{Holds, Permits, Unprotected, Harmless, evaluate-guards}
use cogentrex.Permissions.Loosening.{record_denial-loosens}

abbrev no_text : Value → String
no_text v = ""

abbrev shell : Fields
shell = field "command" (text "ls") no_field

abbrev evaluator : Evaluator
evaluator = new_evaluator 0 auto_approve_safe 1 300

abbrev one_denial : List Denial
one_denial = denied 10 10 "shell" low "no" ∷ []

shell_clean : any (names_command casefold no_text) (flatten 5 (object shell)) ≡ false
unfolding casefold flatten flatten_fields
shell_clean = refl

shell_absent : protected_argument casefold no_text shell (path_keys casefold no_text) ≡ none
unfolding protected_argument
shell_absent = refl

record_denial-loosens_example :
    ((evaluate casefold no_text evaluator low shell).allowed ≡ false)
    × ((evaluate casefold no_text
          (record_denial 10 10 "shell" low "no" evaluator)
          low
          shell).allowed
        ≡ true)
record_denial-loosens_example =
    record_denial-loosens casefold no_text 10 10 "shell" low "no" evaluator shell refl (omega arith)
      (omega arith) shell_absent shell_clean

shell_allowed :
    (evaluate casefold no_text (deny_each one_denial evaluator) low shell).allowed ≡ true
unfolding deny_each
shell_allowed =
    (record_denial-loosens casefold no_text 10 10 "shell" low "no" evaluator shell refl
      (omega arith) (omega arith) shell_absent shell_clean).1

evaluate-guards_example :
    All (Unprotected casefold no_text shell) ("path" ∷ "file_path" ∷ "directory" ∷ "target" ∷ [])
    × ((s : String) → Holds 5 (object shell) s → Harmless casefold no_text s)
    × Permits (deny_each one_denial evaluator).mode low
evaluate-guards_example =
    evaluate-guards casefold no_text (deny_each one_denial evaluator) low shell shell_allowed

deny_each-restricts_example :
    ((evaluate casefold no_text evaluator low shell).allowed ≡ true)
    ⊎ Loosened auto_approve_safe (deny_each one_denial evaluator).mode low
deny_each-restricts_example =
    deny_each-restricts casefold no_text one_denial evaluator low shell shell_allowed

-- A text below five containers is not scanned.
abbrev wrap : Value → Value
wrap v = array (item v no_item)

deep_unseen :
    flatten 5 (object (field "a" (wrap (wrap (wrap (wrap (text "rm -rf /"))))) no_field)) ≡ []
unfolding flatten flatten_fields flatten_items
deep_unseen = refl
