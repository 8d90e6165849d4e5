-- ===== src/Compaction/Pipeline.antt =====
-- The pipeline of backend/app/services/multi_layer_compact.py.
use cogentrex.Prelude.{
  ℕ, zero, suc, ◌+◌, ◌*◌, ◌/◌, Bool, false, ◌&&◌, List, [], ◌++◌, length, ltb, leb, ◌==◌,
  if◌then◌else◌,
}
use cogentrex.Compaction.Messages.{
  Message, Layer, CompactionStats, CompactionConfig, Tools, Summarized, Cycles, no_layer,
  lossless_layer, distill_layer, summarize_layer,
}
use cogentrex.Compaction.Layers.{count_tokens, lossless_prune, structured_distill, lossy_summarize}

abbrev pub is_tripped : CompactionConfig → ℕ → Cycles → Bool
is_tripped config threshold s =
    leb config.max_compaction_cycles s.cycles && ltb threshold s.tokens_now

-- `int(token_budget * cfg.trigger_threshold)`
abbrev pub threshold_of : CompactionConfig → ℕ
threshold_of config = config.max_tokens * config.trigger_percent / 100

module _ (tools : Tools) where
  abbrev pub next_cycle : Summarized → Cycles → Cycles
  next_cycle summarized s = record {
    current = summarized.messages;
    tokens_now = count_tokens tools summarized.messages;
    cycles = suc s.cycles;
    total_summarized = s.total_summarized + summarized.count;
    all_pointers = s.all_pointers ++ summarized.pointers;
  }

  -- The loop, by the cycles that are left.
  abbrev pub summarize_while : ℕ → ℕ → ℕ → Cycles → Cycles
  summarize_while keep_recent threshold zero s = s
  summarize_while keep_recent threshold (suc left) s =
      let summarized = lossy_summarize tools keep_recent s.current in
      let next = next_cycle summarized s in
      let rest = summarize_while keep_recent threshold left next in
      if ltb threshold s.tokens_now then (if summarized.count == 0 then next else rest) else s

  abbrev pub stats_of : Layer → List Message → List Message → ℕ → CompactionStats
  stats_of layer before after pruned = record {
    layer_applied = layer;
    tokens_before = count_tokens tools before;
    tokens_after = count_tokens tools after;
    messages_before = length before;
    messages_after = length after;
    messages_pruned = pruned;
    messages_summarized = 0;
    circuit_breaker_tripped = false;
    recovery_pointers = [];
  }

  -- The end of the pipeline: the messages after the loop.
  abbrev pub finish :
      CompactionConfig → ℕ → List Message → ℕ → Cycles → List Message × CompactionStats
  finish config threshold before pruned s = (
    s.current,
    record {
      layer_applied = summarize_layer;
      tokens_before = count_tokens tools before;
      tokens_after = s.tokens_now;
      messages_before = length before;
      messages_after = length s.current;
      messages_pruned = pruned;
      messages_summarized = s.total_summarized;
      circuit_breaker_tripped = is_tripped config threshold s;
      recovery_pointers = s.all_pointers;
    },
  )

  abbrev pub start : List Message → Cycles
  start messages = record {
    current = messages;
    tokens_now = count_tokens tools messages;
    cycles = 0;
    total_summarized = 0;
    all_pointers = [];
  }

  abbrev pub multi_layer_compact : CompactionConfig → List Message → List Message × CompactionStats
  multi_layer_compact config messages =
      let threshold = threshold_of config in
      let pruned = lossless_prune tools messages in
      let distilled = structured_distill tools pruned.0 in
      if leb (count_tokens tools messages) threshold
      then (messages, stats_of no_layer messages messages 0)
      else if leb (count_tokens tools pruned.0) threshold
      then (pruned.0, stats_of lossless_layer messages pruned.0 pruned.1)
      else if leb (count_tokens tools distilled.0) threshold
      then (distilled.0, stats_of distill_layer messages distilled.0 (pruned.1 + distilled.1))
      else finish config threshold messages pruned.1 (
          summarize_while config.keep_recent threshold config.max_compaction_cycles
            (start distilled.0))
