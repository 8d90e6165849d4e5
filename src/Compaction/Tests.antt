-- ===== src/Compaction/Tests.antt =====
-- A conversation that is compacted, and the theorems at it.
use cogentrex.Prelude.{
  ◌≤◌, ◌≡◌, ◌⊎◌, refl, true, false, none, some, List, [], ◌∷◌, String, length, arith,
}
use cogentrex.Compaction.Messages.{Message, CompactionConfig, Tools, conversation}
use cogentrex.Compaction.Layers.{count_tokens, lossless_prune, structured_distill}
use cogentrex.Compaction.Pipeline.{threshold_of, multi_layer_compact}
use cogentrex.Compaction.Laws.{multi_layer_compact-ends}
use cogentrex.Compaction.Recent.{Recent, multi_layer_compact-Recent}

abbrev tools : Tools
tools = record {
  token_count = λ s. 10;
  content_hash = λ s. s;
  is_blank = λ s. false;
  decimal = λ n. "n";
  summarize = none;
}

abbrev said : String → String → Message
said role content = record {
  role = role;
  content = content;
  name = none;
  tool_call_id = none;
  recovery_pointer = none;
  recovery_pointers = [];
  compaction_layer = none;
  others = [];
}

abbrev five : List Message
five =
    said "system" "rules"
    ∷ said "user" "a"
    ∷ said "assistant" "b"
    ∷ said "tool" "c"
    ∷ said "tool" "c"
    ∷ []

abbrev config : CompactionConfig
config = record {
  max_tokens = 40;
  trigger_percent = 75;
  keep_recent = 2;
  max_compaction_cycles = 3;
}

five_compacted :
    conversation (multi_layer_compact tools config five).0
    ≡ said "tool" "c"
      ∷ record (said "tool" "c") {
        content = "[Duplicate tool result — see earlier  call]";
        recovery_pointer = some ":c";
      }
      ∷ []
five_compacted = refl

multi_layer_compact-ends_example :
    let (out, stats) = multi_layer_compact tools config five in
    ((count_tokens tools out ≤ threshold_of config)
      ⊎ (stats.circuit_breaker_tripped ≡ true)
      ⊎ (length (conversation out) ≤ 2))
    × (stats.tokens_after ≡ count_tokens tools out)
    × (stats.messages_after ≡ length out)
multi_layer_compact-ends_example = multi_layer_compact-ends tools config five (omega arith)

multi_layer_compact-Recent_example :
    Recent 2
      (conversation (structured_distill tools (lossless_prune tools five).0).0)
      (conversation (multi_layer_compact tools config five).0)
multi_layer_compact-Recent_example = multi_layer_compact-Recent tools config five (omega arith) refl
