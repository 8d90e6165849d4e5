-- ===== src/Compaction/Messages.antt =====
-- Messages, statistics and slices of backend/app/services/multi_layer_compact.py. The tokenizer, the
-- hash, the summarizer, `str.strip` and decimals are parameters.
use Prim.Native.String.{◌++◌ as concat}
use cogentrex.Prelude.{
  ℕ, zero, suc, ◌-◌, Bool, false, not, ◌||◌, Option, none, some, List, [], ◌∷◌, String, filter,
  length, take, drop, str_eq, ltb, if◌then◌else◌,
}

-- A message, with the keys that the layers read and write; `others` are the rest of the dictionary.
pub record Message : Type 0 where
  pub role : String
  pub content : String
  pub name : Option String
  pub tool_call_id : Option String
  pub recovery_pointer : Option String
  pub recovery_pointers : List String
  pub compaction_layer : Option String
  pub others : List (String × String)

pub data Layer : Type 0 where
  no_layer lossless_layer distill_layer summarize_layer : Layer

pub record CompactionStats : Type 0 where
  pub layer_applied : Layer
  pub tokens_before : ℕ
  pub tokens_after : ℕ
  pub messages_before : ℕ
  pub messages_after : ℕ
  pub messages_pruned : ℕ
  pub messages_summarized : ℕ
  pub circuit_breaker_tripped : Bool
  pub recovery_pointers : List String

-- The threshold is given in percent.
pub record CompactionConfig : Type 0 where
  pub max_tokens : ℕ
  pub trigger_percent : ℕ
  pub keep_recent : ℕ
  pub max_compaction_cycles : ℕ

pub record Tools : Type 0 where
  pub token_count : String → ℕ
  pub content_hash : String → String
  -- Whether `strip` leaves nothing.
  pub is_blank : String → Bool
  pub decimal : ℕ → String
  -- The summarizer, if there is one; an exception is none.
  pub summarize : Option (List Message → Option String)

abbrev pub text_or_empty : Option String → String
text_or_empty none = ""
text_or_empty (some s) = s

abbrev pub is_truthy : Option String → Bool
is_truthy none = false
is_truthy (some s) = not (str_eq s "")

-- `msg.get("name", msg.get("tool_call_id", ""))`
abbrev pub tool_name : Message → String
tool_name message = elim message.name [
  | none ↦ text_or_empty message.tool_call_id
  | some name ↦ name
]

abbrev pub was_seen : String → List String → Bool
was_seen key [] = false
was_seen key (x ∷ xs) = str_eq x key || was_seen key xs

abbrev pub is_system : Message → Bool
is_system message = str_eq message.role "system"

abbrev pub conversation : List Message → List Message
conversation messages = filter (λ m. not (is_system m)) messages

abbrev pub system_messages : List Message → List Message
system_messages messages = filter is_system messages

-- `xs[:-k]` and `xs[-k:]`, where -0 is 0.
abbrev pub but_last {ℓ} : {A : Type ℓ} → ℕ → List A → List A
but_last zero xs = []
but_last (suc k) xs = take (length xs - suc k) xs

abbrev pub last {ℓ} : {A : Type ℓ} → ℕ → List A → List A
last zero xs = xs
last (suc k) xs = drop (length xs - suc k) xs

abbrev pub joined : List String → String
joined [] = ""
joined (x ∷ []) = x
joined (x ∷ y ∷ xs) = concat x (concat " | " (joined (y ∷ xs)))

abbrev pub min : ℕ → ℕ → ℕ
min a b = if ltb b a then b else a

abbrev pub max : ℕ → ℕ → ℕ
max a b = if ltb a b then b else a

-- How many recent messages are kept.
abbrev pub kept_count : ℕ → ℕ → ℕ
kept_count keep_recent n = min keep_recent (max 1 (n - 1))

pub record Summarized : Type 0 where
  pub messages : List Message
  pub count : ℕ
  pub pointers : List String

-- The variables of the loop.
pub record Cycles : Type 0 where
  pub current : List Message
  pub tokens_now : ℕ
  pub cycles : ℕ
  pub total_summarized : ℕ
  pub all_pointers : List String
