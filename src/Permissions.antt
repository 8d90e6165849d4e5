-- ===== src/Permissions.antt =====
-- Graduated permissions: backend/app/security/graduated_permissions.py. `str` of a container and
-- `str.lower` are the language's, and parameters here.
pub mod Laws
pub mod Guards
pub mod Loosening
mod Tests
use cogentrex.Prelude.{
  filter, ℕ, zero, suc, ◌+◌, ◌-◌, Bool, true, false, not, ◌&&◌, ◌||◌, Option, none, some, List, [],
  ◌∷◌, ◌++◌, String, codes, length, str_eq, leb, ltb, ◌==◌, if◌then◌else◌,
}
use cogentrex.Policy.{any, starts_with}

pub data PermissionMode : Type 0 where
  allow_all auto_approve_safe ask_unknown ask_all auto_deny_unsafe deny_all plan_only :
      PermissionMode

-- The value of the enumeration.
abbrev pub rank : PermissionMode → ℕ
rank allow_all = 0
rank auto_approve_safe = 1
rank ask_unknown = 2
rank ask_all = 3
rank auto_deny_unsafe = 4
rank deny_all = 5
rank plan_only = 6

pub data RiskLevel : Type 0 where
  safe low medium high critical : RiskLevel

abbrev pub level : RiskLevel → ℕ
level safe = 0
level low = 1
level medium = 2
level high = 3
level critical = 4

-- The texts of the reasons are left out, but for the path.
pub data Reason : Type 0 where
  protected_path : String → Reason
  protected_command by_mode : Reason

pub record PermissionDecision : Type 0 where
  pub allowed : Bool
  pub requires_approval : Bool
  pub reason : Reason
  pub mode_used : PermissionMode
  pub risk_level : RiskLevel

pub record DenialRecord : Type 0 where
  pub tool_name : String
  pub risk_level : RiskLevel
  pub timestamp : ℕ
  pub reason : String

-- The values of arguments: texts, dictionaries, lists and tuples, and others with their `str`.
mutual
  pub data Value : Type 0 where
    text : String → Value
    object : Fields → Value
    array : Items → Value
    scalar : String → Value

  pub data Fields : Type 0 where
    no_field : Fields
    field : String → Value → Fields → Fields

  pub data Items : Type 0 where
    no_item : Items
    item : Value → Items → Items

-- `PROTECTED_PATHS` and `PROTECTED_COMMANDS`.
abbrev pub protected_paths : List String
protected_paths =
    ".env" ∷ ".env.local" ∷ ".env.production" ∷ ".git/config" ∷ ".git/hooks" ∷ ".ssh"
    ∷ "/etc/passwd" ∷ "/etc/shadow" ∷ "/etc/sudoers" ∷ "node_modules/.cache" ∷ "id_rsa"
    ∷ "id_ed25519" ∷ []

abbrev pub protected_commands : List String
protected_commands =
    "rm -rf" ∷ "drop table" ∷ "drop database" ∷ "format" ∷ "mkfs" ∷ "dd if=" ∷ "chmod 777"
    ∷ "curl | sh" ∷ "curl | bash" ∷ "wget | sh" ∷ "eval(" ∷ "> /dev/sd" ∷ "shutdown" ∷ "reboot"
    ∷ "kill -9" ∷ []

abbrev pub contains : List ℕ → List ℕ → Bool
contains part [] = starts_with part []
contains part (c ∷ cs) = starts_with part (c ∷ cs) || contains part cs

-- `_flatten_string_values`, with the depth that is left.
mutual
  pub flatten : ℕ → Value → List String
  flatten zero v = []
  flatten (suc n) (text s) = s ∷ []
  flatten (suc n) (object fields) = flatten_fields n fields
  flatten (suc n) (array items) = flatten_items n items
  flatten (suc n) (scalar s) = []

  pub flatten_fields : ℕ → Fields → List String
  flatten_fields n no_field = []
  flatten_fields n (field key v fields) = flatten n v ++ flatten_fields n fields

  pub flatten_items : ℕ → Items → List String
  flatten_items n no_item = []
  flatten_items n (item v items) = flatten n v ++ flatten_items n items

abbrev pub lookup : String → Fields → Option Value
lookup key no_field = none
lookup key (field name v fields) = if str_eq name key then some v else lookup key fields

-- Why the mode was changed.
pub data Change : Type 0 where
  initial : Change
  by_hand : String → Change
  auto_downgrade : ℕ → Change

pub record Evaluator : Type 0 where
  pub mode : PermissionMode
  pub denial_threshold : ℕ
  pub downgrade_window : ℕ
  pub denials : List DenialRecord
  pub denial_counts : String → ℕ
  pub mode_history : List (ℕ × PermissionMode × Change)

-- `__init__`.
abbrev pub new_evaluator : ℕ → PermissionMode → ℕ → ℕ → Evaluator
new_evaluator now mode threshold window = record {
  mode = mode;
  denial_threshold = threshold;
  downgrade_window = window;
  denials = [];
  denial_counts = λ tool. 0;
  mode_history = (now, mode, initial) ∷ [];
}

abbrev pub decision : Bool → Bool → PermissionMode → RiskLevel → PermissionDecision
decision allowed requires_approval mode risk = record {
  allowed = allowed;
  requires_approval = requires_approval;
  reason = by_mode;
  mode_used = mode;
  risk_level = risk;
}

-- `_evaluate_mode`.
pub evaluate_mode : PermissionMode → RiskLevel → PermissionDecision
evaluate_mode allow_all risk = decision true false allow_all risk
evaluate_mode deny_all risk = decision false false deny_all risk
evaluate_mode plan_only risk = decision false true plan_only risk
evaluate_mode auto_approve_safe risk =
    if leb (level risk) 0
    then decision true false auto_approve_safe risk
    else decision false true auto_approve_safe risk
evaluate_mode ask_unknown risk =
    if leb (level risk) 1
    then decision true false ask_unknown risk
    else decision false true ask_unknown risk
evaluate_mode ask_all risk = decision false true ask_all risk
evaluate_mode auto_deny_unsafe risk =
    if leb (level risk) 0
    then decision false true auto_deny_unsafe risk
    else decision false false auto_deny_unsafe risk

abbrev pub guarded : PermissionMode → RiskLevel → Reason → PermissionDecision
guarded mode risk reason = record (decision false true mode risk) { reason = reason }

-- `str.lower` on code points, and `str` of a dictionary or a list.
module _ (lower : List ℕ → List ℕ) (str_of : Value → String) where
  -- `str(args.get(key, ""))`.
  abbrev pub argument : Fields → String → String
  argument args key = elim (lookup key args) [
    | none ↦ ""
    | some (text s) ↦ s
    | some (scalar s) ↦ s
    | some v ↦ str_of v
  ]

  abbrev pub names_path : String → Bool
  names_path value = any (λ part. contains (codes part) (codes value)) protected_paths

  -- The first of the keys whose value holds a protected path.
  pub protected_argument : Fields → List String → Option String
  protected_argument args [] = none
  protected_argument args (key ∷ keys) =
      let rest = protected_argument args keys in
      if names_path (argument args key) then some (argument args key) else rest

  abbrev pub names_command : String → Bool
  names_command value = any (λ part. contains (codes part) (lower (codes value))) protected_commands

  abbrev pub path_keys : List String
  path_keys = "path" ∷ "file_path" ∷ "directory" ∷ "target" ∷ []

  abbrev pub check_commands : PermissionMode → RiskLevel → Fields → PermissionDecision
  check_commands mode risk args =
      if any names_command (flatten 5 (object args))
      then guarded mode risk protected_command
      else evaluate_mode mode risk

  abbrev pub check_paths : PermissionMode → RiskLevel → Fields → Option String → PermissionDecision
  check_paths mode risk args (some value) = guarded mode risk (protected_path value)
  check_paths mode risk args none = check_commands mode risk args

  pub evaluate : Evaluator → RiskLevel → Fields → PermissionDecision
  evaluate e risk args = check_paths e.mode risk args (protected_argument args path_keys)

-- `PermissionMode(min(self._mode + 1, PermissionMode.ASK_ALL))`, below ASK_ALL.
abbrev pub stricter : PermissionMode → PermissionMode
stricter allow_all = auto_approve_safe
stricter auto_approve_safe = ask_unknown
stricter _ = ask_all

abbrev pub is_recent : ℕ → ℕ → DenialRecord → Bool
is_recent now window d = ltb (now - d.timestamp) window

abbrev pub recent_denials : ℕ → Evaluator → ℕ
recent_denials now e = length (filter (is_recent now e.downgrade_window) e.denials)

abbrev pub downgrade : ℕ → Evaluator → Evaluator
downgrade now e = record e {
  mode = stricter e.mode;
  mode_history =
      e.mode_history ++ ((now, stricter e.mode, auto_downgrade (recent_denials now e)) ∷ []);
}

-- `_check_mode_transformation`.
pub check_mode_transformation : ℕ → Evaluator → Evaluator
check_mode_transformation now e =
    if leb e.denial_threshold (recent_denials now e) && ltb (rank e.mode) (rank ask_all)
    then downgrade now e
    else e

-- A denial at `now`, whose transformation reads the clock again at `now'`.
pub record_denial : ℕ → ℕ → String → RiskLevel → String → Evaluator → Evaluator
record_denial now now' tool risk reason e = check_mode_transformation now' (record e {
  denials =
      e.denials
      ++ (record { tool_name = tool; risk_level = risk; timestamp = now; reason = reason } ∷ []);
  denial_counts = λ t. if str_eq t tool then e.denial_counts t + 1 else e.denial_counts t;
})

pub reset_denials : Evaluator → Evaluator
reset_denials e = record e { denials = []; denial_counts = λ tool. 0 }

pub set_mode : ℕ → PermissionMode → String → Evaluator → Evaluator
set_mode now mode reason e = record e {
  mode = mode;
  mode_history = e.mode_history ++ ((now, mode, by_hand reason) ∷ []);
}

-- Denials, one after another.
pub data Denial : Type 0 where
  denied : ℕ → ℕ → String → RiskLevel → String → Denial

pub deny_each : List Denial → Evaluator → Evaluator
deny_each [] e = e
deny_each (denied now now' tool risk reason ∷ ds) e =
    deny_each ds (record_denial now now' tool risk reason e)
