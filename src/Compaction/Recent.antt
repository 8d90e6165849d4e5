-- ===== src/Compaction/Recent.antt =====
-- The recent messages in the pipeline of backend/app/services/multi_layer_compact.py.
use cogentrex.Prelude.{
  ℕ, zero, suc, ◌-◌, ◌≤◌, ◌<◌, ◌≡◌, ◌⊎◌, refl, ◌∙◌, ap, inl, inr, List, length, length-drop, drop,
  ltb, leb, ◌==◌, Bool-cases, arith,
}
use cogentrex.Compaction.Messages.{
  Message, summarize_layer, CompactionConfig, Tools, Cycles, conversation,
}
use cogentrex.Compaction.Layers.{count_tokens, lossless_prune, structured_distill, lossy_summarize}
use cogentrex.Compaction.Pipeline.{
  next_cycle, summarize_while, start, threshold_of, multi_layer_compact,
}
use cogentrex.Compaction.Laws.{lossy_summarize-recent}

-- The second conversation is the first, or the given number of its last messages.
abbrev pub Recent : ℕ → List Message → List Message → Type 0
Recent keep talk left = (n : ℕ) × (left ≡ drop n talk) × ((n ≡ 0) ⊎ (length left ≡ keep))

Recent-trans :
    (keep : ℕ) (a b c : List Message)
    → 1 ≤ keep
    → Recent keep a b
    → Recent keep b c
    → Recent keep a c
Recent-trans keep a b c one (n, e, inl none_gone) second =
    let same : b ≡ a = e ∙ ap (λ k. drop k a) none_gone in
    (second.0, second.1 ∙ ap (drop second.0) same, second.2)
Recent-trans keep a b c one (n, e, inr short) (m, e', rest) =
    let gone : m ≡ 0 = elim rest [
      | inl none_gone ↦ none_gone
      | inr again ↦ omega (arith, one, short, again, ap length e', length-drop m b)
    ] in
    let same : c ≡ b = e' ∙ ap (λ k. drop k b) gone in (n, same ∙ e, inr (ap length same ∙ short))

module _ (tools : Tools) where
  lossy_summarize-Recent :
      (keep : ℕ) (messages : List Message)
      → 1 ≤ keep
      → Recent keep
          (conversation messages)
          (conversation (lossy_summarize tools keep messages).messages)
  lossy_summarize-Recent keep messages one =
      elim (Bool-cases (leb (length (conversation messages)) keep)) [
        | inl few ↦ rw few (0, refl, inl refl)
        | inr many ↦
            let talk = conversation messages in
            let recent = lossy_summarize-recent tools keep messages one many in
            let more : keep < length talk = ground (arith, many) in
            (
              length talk - keep,
              recent,
              inr (omega (arith, ap length recent, length-drop (length talk - keep) talk, more)),
            )
      ]

  summarize_while-Recent :
      (keep threshold left : ℕ) (s : Cycles)
      → 1 ≤ keep
      → Recent keep
          (conversation s.current)
          (conversation (summarize_while tools keep threshold left s).current)
  summarize_while-Recent keep threshold zero s one = (0, refl, inl refl)
  summarize_while-Recent keep threshold (suc left) s one =
      let summarized = lossy_summarize tools keep s.current in
      let next = next_cycle tools summarized s in
      elim (Bool-cases (ltb threshold s.tokens_now)) [
        | inr fits ↦ rw fits (0, refl, inl refl)
        | inl over ↦ elim (Bool-cases (summarized.count == 0)) [
          | inl nothing ↦ rw (over, nothing) (lossy_summarize-Recent keep s.current one)
          | inr some_old ↦
              rw (over, some_old)
                (Recent-trans keep (conversation s.current) (conversation summarized.messages)
                  (conversation (summarize_while tools keep threshold left next).current) one
                  (lossy_summarize-Recent keep s.current one)
                  (summarize_while-Recent keep threshold left next one))
        ]
      ]

  -- When the summaries are reached and at least one recent message is kept, the conversation that is
  -- returned is the distilled one, or its last messages, exactly as many as are to be kept, unchanged.
  pub multi_layer_compact-Recent :
      (config : CompactionConfig) (messages : List Message)
      → 1 ≤ config.keep_recent
      → (multi_layer_compact tools config messages).1.layer_applied ≡ summarize_layer
      → Recent config.keep_recent
          (conversation (structured_distill tools (lossless_prune tools messages).0).0)
          (conversation (multi_layer_compact tools config messages).0)
  multi_layer_compact-Recent config messages one reached =
      let threshold = threshold_of config in
      let pruned = lossless_prune tools messages in
      let distilled = structured_distill tools pruned.0 in
      elim (Bool-cases (leb (count_tokens tools messages) threshold)) [
        | inl fits ↦ let early = rw fits at reached in absurd (cc)
        | inr over ↦ elim (Bool-cases (leb (count_tokens tools pruned.0) threshold)) [
          | inl fits ↦ let early = rw (over, fits) at reached in absurd (cc)
          | inr over2 ↦ elim (Bool-cases (leb (count_tokens tools distilled.0) threshold)) [
            | inl fits ↦ let early = rw (over, over2, fits) at reached in absurd (cc)
            | inr over3 ↦
                rw (over, over2, over3)
                  (summarize_while-Recent config.keep_recent threshold config.max_compaction_cycles
                    (start tools distilled.0) one)
          ]
        ]
      ]
