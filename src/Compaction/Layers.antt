-- ===== src/Compaction/Layers.antt =====
-- The three layers of backend/app/services/multi_layer_compact.py.
use Prim.Native.String.{◌++◌ as concat}
use Prim.Native.String.{String as Text}
use cogentrex.Prelude.{
  ℕ, zero, suc, ◌+◌, ◌-◌, ◌/◌, Bool, not, ◌&&◌, ◌||◌, Option, none, some, List, [], ◌∷◌, ◌++◌,
  String, map, length, sum, codes, str_eq, ltb, leb, if◌then◌else◌,
}
use cogentrex.Ledger.Runs.{clip}
use cogentrex.Compaction.Messages.{
  Message, Tools, is_truthy, tool_name, was_seen, conversation, system_messages, but_last, last,
  joined, kept_count, Summarized,
}

module _ (tools : Tools) where
  abbrev pub count_tokens : List Message → ℕ
  count_tokens messages = sum (λ m. tools.token_count m.content + 4) messages

  abbrev pub dedup_key : Message → String
  dedup_key message = concat (tool_name message) (concat ":" (tools.content_hash message.content))

  abbrev pub duplicate_of : Message → Message
  duplicate_of message = record message {
    content = concat "[Duplicate tool result — see earlier " (concat (tool_name message) " call]");
    recovery_pointer = some (dedup_key message);
  }

  abbrev pub is_empty_answer : Message → Bool
  is_empty_answer message = str_eq message.role "assistant" && tools.is_blank message.content

  abbrev pub is_tool_result : Message → Bool
  is_tool_result message = str_eq message.role "tool" || is_truthy message.tool_call_id

  abbrev pub is_duplicate : List String → Message → Bool
  is_duplicate seen message = is_tool_result message && was_seen (dedup_key message) seen

  -- The keys seen once the message is passed.
  abbrev pub seen_after : List String → Message → List String
  seen_after seen message =
      if not (is_empty_answer message)
        && (is_tool_result message && not (was_seen (dedup_key message) seen))
      then dedup_key message ∷ seen
      else seen

  -- Layer 1, with the keys seen so far.
  abbrev pub prune_from : List String → List Message → List Message × ℕ
  prune_from seen [] = ([], 0)
  prune_from seen (m ∷ messages) =
      let rest = prune_from (seen_after seen m) messages in
      if is_empty_answer m
      then (rest.0, suc rest.1)
      else if is_duplicate seen m
      then (duplicate_of m ∷ rest.0, suc rest.1)
      else (m ∷ rest.0, rest.1)

  abbrev pub lossless_prune : List Message → List Message × ℕ
  lossless_prune messages = prune_from [] messages

  abbrev pub max_content_length : ℕ
  max_content_length = 2000

  abbrev pub is_long : Message → Bool
  is_long message = ltb max_content_length (length (codes message.content))

  -- The characters from a position on.
  abbrev pub skip : ℕ → String → String
  skip zero s = s
  skip (suc n) Text.[] = ""
  skip (suc n) (Text.◌∷◌ c s) = skip n s

  abbrev pub shortened : Message → Message
  shortened message =
      let size = length (codes message.content) in
      let half = max_content_length / 2 in
      record message {
        content = concat (clip half message.content) (
            concat "\n\n[... " (
              concat (tools.decimal (size - max_content_length))
                (concat " chars truncated ...]\n\n" (skip (size - half) message.content))));
        recovery_pointer = some (tools.content_hash message.content);
      }

  -- Layer 2.
  abbrev pub structured_distill : List Message → List Message × ℕ
  structured_distill [] = ([], 0)
  structured_distill (m ∷ messages) =
      let rest = structured_distill messages in
      if is_long m then (shortened m ∷ rest.0, suc rest.1) else (m ∷ rest.0, rest.1)

  -- The summarizer's text, or the beginnings of the last messages.
  abbrev pub extract : List Message → String
  extract old = joined (map (λ m. clip 100 m.content) (last 5 old))

  abbrev pub or_extract : List Message → Option String → String
  or_extract old none = extract old
  or_extract old (some summary) = if str_eq summary "" then extract old else summary

  abbrev pub summary_of : List Message → String
  summary_of old = elim tools.summarize [
    | none ↦ extract old
    | some summarize ↦ or_extract old (summarize old)
  ]

  abbrev pub summary_message : List Message → List Message → Message
  summary_message old recent = record {
    role = "system";
    content = concat "[CONTEXT COMPACTION — " (
        concat (tools.decimal (length old)) (
          concat " messages summarized]\n\n" (
            concat (summary_of old) (
              concat "\n\n[End of summary — "
                (concat (tools.decimal (length recent)) " recent messages follow]")))));
    name = none;
    tool_call_id = none;
    recovery_pointer = none;
    recovery_pointers = map (λ m. tools.content_hash m.content) old;
    compaction_layer = some "lossy_summarize";
    others = [];
  }

  -- Layer 3, once.
  abbrev pub lossy_summarize : ℕ → List Message → Summarized
  lossy_summarize keep_recent messages =
      let talk = conversation messages in
      let keep = kept_count keep_recent (length talk) in
      let old = but_last keep talk in
      let recent = last keep talk in
      if leb (length talk) keep_recent
      then record { messages = messages; count = 0; pointers = [] }
      else record {
        messages = system_messages messages ++ (summary_message old recent ∷ recent);
        count = length old;
        pointers = map (λ m. tools.content_hash m.content) old;
      }
