-- ===== src/Compaction/Laws.antt =====
-- What the pipeline of backend/app/services/multi_layer_compact.py leaves of a conversation.
use cogentrex.Prelude.{
  All, filter-holds, length-drop, ℕ, zero, suc, ◌+◌, ◌-◌, ◌≤◌, ◌<◌, ◌≡◌, ◌⊎◌, refl, ◌∙◌, ap, inl,
  inr, true, false, not, List, [], ◌∷◌, ◌++◌, length, drop, ltb, leb, leb→le, ◌==◌, Bool-cases,
  arith,
}
use cogentrex.Compaction.Messages.{
  Message, CompactionConfig, Tools, Cycles, is_system, conversation, system_messages, but_last,
  last, kept_count,
}
use cogentrex.Compaction.Layers.{
  count_tokens, lossless_prune, structured_distill, summary_message, lossy_summarize,
}
use cogentrex.Compaction.Pipeline.{
  next_cycle, summarize_while, is_tripped, start, threshold_of, multi_layer_compact,
}

kept_count-keep : (keep n : ℕ) → 1 ≤ keep → keep < n → kept_count keep n ≡ keep
kept_count-keep keep n one more = ground arith

-- System messages hold no conversation, and conversation stays conversation.
conversation-system_messages :
    (messages more : List Message)
    → conversation (system_messages messages ++ more) ≡ conversation more
conversation-system_messages [] more = refl
conversation-system_messages (m ∷ messages) more = elim (Bool-cases (is_system m)) [
  | inl system ↦ rw (system, system) (conversation-system_messages messages more)
  | inr talk ↦ rw talk (conversation-system_messages messages more)
]

drop-filtered :
    (n : ℕ) (messages : List Message)
    → All (λ m. not (is_system m) ≡ true) messages
    → conversation (drop n messages) ≡ drop n messages
drop-filtered zero [] h = refl
drop-filtered zero (m ∷ messages) h = rw h.0 (ap (λ ms. m ∷ ms) (drop-filtered zero messages h.1))
drop-filtered (suc n) [] h = refl
drop-filtered (suc n) (m ∷ messages) h = drop-filtered n messages h.1

last-drop :
    (k : ℕ) (messages : List Message)
    → 1 ≤ k
    → last k messages ≡ drop (length messages - k) messages
last-drop zero messages one = absurd (omega (arith, one))
last-drop (suc k) messages one = refl

module _ (tools : Tools) where
  -- The loop's count of tokens is that of its messages.
  summarize_while-tokens :
      (keep threshold left : ℕ) (s : Cycles)
      → s.tokens_now ≡ count_tokens tools s.current
      → let e = summarize_while tools keep threshold left s in
        e.tokens_now ≡ count_tokens tools e.current
  summarize_while-tokens keep threshold zero s same = same
  summarize_while-tokens keep threshold (suc left) s same =
      let summarized = lossy_summarize tools keep s.current in
      elim (Bool-cases (ltb threshold s.tokens_now)) [
        | inr fits ↦ rw fits same
        | inl over ↦ elim (Bool-cases (summarized.count == 0)) [
          | inl nothing ↦ rw (over, nothing) refl
          | inr some_old ↦
              rw (over, some_old)
                (summarize_while-tokens keep threshold left (next_cycle tools summarized s) refl)
        ]
      ]

  -- A cycle that summarizes leaves the recent messages of the conversation.
  pub lossy_summarize-recent :
      (keep : ℕ) (messages : List Message)
      → 1 ≤ keep
      → leb (length (conversation messages)) keep ≡ false
      → conversation (lossy_summarize tools keep messages).messages
        ≡ drop (length (conversation messages) - keep) (conversation messages)
  lossy_summarize-recent keep messages one many =
      let talk = conversation messages in
      let k = kept_count keep (length talk) in
      let exact : k ≡ keep = kept_count-keep keep (length talk) one (ground (arith, many)) in
      rw many (
        conversation-system_messages messages
          (summary_message tools (but_last k talk) (last k talk) ∷ last k talk)
        ∙ ap conversation (ap (λ n. last n talk) exact ∙ last-drop keep talk one)
        ∙ drop-filtered (length talk - keep) talk (filter-holds (λ m. not (is_system m)) messages))

  -- After a cycle the conversation has at most the messages that are kept.
  lossy_summarize-few :
      (keep : ℕ) (messages : List Message)
      → 1 ≤ keep
      → length (conversation (lossy_summarize tools keep messages).messages) ≤ keep
  lossy_summarize-few keep messages one =
      elim (Bool-cases (leb (length (conversation messages)) keep)) [
        | inl few ↦ rw few (leb→le (length (conversation messages)) keep few)
        | inr many ↦ omega (
          arith,
          ap length (lossy_summarize-recent keep messages one many),
          length-drop (length (conversation messages) - keep) (conversation messages),
        )
      ]

  -- The loop ends below the threshold, after all its cycles, or with few messages of conversation.
  summarize_while-ends :
      (keep threshold left : ℕ) (s : Cycles)
      → 1 ≤ keep
      → let e = summarize_while tools keep threshold left s in
        (e.tokens_now ≤ threshold)
        ⊎ (e.cycles ≡ s.cycles + left)
        ⊎ (length (conversation e.current) ≤ keep)
  summarize_while-ends keep threshold zero s one = inr (inl (omega arith))
  summarize_while-ends keep threshold (suc left) s one =
      let summarized = lossy_summarize tools keep s.current in
      elim (Bool-cases (ltb threshold s.tokens_now)) [
        | inr fits ↦ rw fits (inl (ground (arith, fits)))
        | inl over ↦ elim (Bool-cases (summarized.count == 0)) [
          | inl nothing ↦ rw (over, nothing) (inr (inr (lossy_summarize-few keep s.current one)))
          | inr some_old ↦
              rw (over, some_old)
                (elim (summarize_while-ends keep threshold left (next_cycle tools summarized s)
                  one) [
                    | inl below ↦ inl below
                    | inr (inl all_cycles) ↦ inr (inl (omega (arith, all_cycles)))
                    | inr (inr few) ↦ inr (inr few)
                  ])
        ]
      ]

  -- The end of the loop, read from its variables.
  room :
      (config : CompactionConfig) (threshold : ℕ) (e : Cycles)
      → e.tokens_now ≡ count_tokens tools e.current
      → (e.tokens_now ≤ threshold)
        ⊎ (e.cycles ≡ 0 + config.max_compaction_cycles)
        ⊎ (length (conversation e.current) ≤ config.keep_recent)
      → (count_tokens tools e.current ≤ threshold)
        ⊎ (is_tripped config threshold e ≡ true)
        ⊎ (length (conversation e.current) ≤ config.keep_recent)
  room config threshold e same (inl below) = inl (omega (arith, same, below))
  room config threshold e same (inr (inr few)) = inr (inr few)
  room config threshold e same (inr (inl all_cycles)) =
      elim (Bool-cases (ltb threshold e.tokens_now)) [
        | inl over ↦ inr (inl (ground (arith, over, all_cycles)))
        | inr fits ↦
            let below : e.tokens_now ≤ threshold = ground (arith, fits) in
            inl (omega (arith, same, below))
      ]

  -- When at least one recent message is kept, the messages that are returned are within the threshold,
  -- or the circuit breaker has tripped, or they have at most the kept number of messages of
  -- conversation; and the statistics count the tokens and the messages that are returned.
  pub multi_layer_compact-ends :
      (config : CompactionConfig) (messages : List Message)
      → 1 ≤ config.keep_recent
      → let (out, stats) = multi_layer_compact tools config messages in
        ((count_tokens tools out ≤ threshold_of config)
          ⊎ (stats.circuit_breaker_tripped ≡ true)
          ⊎ (length (conversation out) ≤ config.keep_recent))
        × (stats.tokens_after ≡ count_tokens tools out)
        × (stats.messages_after ≡ length out)
  multi_layer_compact-ends config messages one =
      let threshold = threshold_of config in
      let pruned = lossless_prune tools messages in
      let distilled = structured_distill tools pruned.0 in
      let first = start tools distilled.0 in
      elim (Bool-cases (leb (count_tokens tools messages) threshold)) [
        | inl fits ↦ rw fits (inl (leb→le (count_tokens tools messages) threshold fits), refl, refl)
        | inr over ↦ elim (Bool-cases (leb (count_tokens tools pruned.0) threshold)) [
          | inl fits ↦
              rw (over, fits)
                (inl (leb→le (count_tokens tools pruned.0) threshold fits), refl, refl)
          | inr over2 ↦ elim (Bool-cases (leb (count_tokens tools distilled.0) threshold)) [
            | inl fits ↦
                rw (over, over2, fits)
                  (inl (leb→le (count_tokens tools distilled.0) threshold fits), refl, refl)
            | inr over3 ↦
                rw (over, over2, over3)
                  (
                    room config threshold
                        (summarize_while tools config.keep_recent threshold
                          config.max_compaction_cycles first)
                        (summarize_while-tokens config.keep_recent threshold
                          config.max_compaction_cycles first refl)
                        (summarize_while-ends config.keep_recent threshold
                          config.max_compaction_cycles first one),
                    summarize_while-tokens config.keep_recent threshold config.max_compaction_cycles
                        first refl,
                    refl,
                  )
          ]
        ]
      ]
