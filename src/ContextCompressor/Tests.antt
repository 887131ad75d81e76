-- ===== src/ContextCompressor/Tests.antt =====
-- A text of 20 tokens read within 16.
use jabr.Base.{
  ℕ, ◌+◌, ◌/◌, ◌≤◌, String, ◌≡◌, ◌⊎◌, refl, true, none, List, [], ◌++◌, length, arith, trim,
  split_paragraphs, join, to_lower_case, includes_text,
}
use jabr.ContextCompressor.{
  ContextCompressor, estimate_tokens, parse_entries, separator_tokens, summary_of, joined, read,
  compress, take_recent, trim_keep, summarize_entries, facts_of, facts_of_lines, is_key_fact,
  cap_facts,
}
use jabr.ContextCompressor.Budget.{total, Fits, read_within}

abbrev show : ℕ → String
show n = "n"

abbrev s : ContextCompressor
s = record {
  max_tokens = 16;
  enabled = true;
  last_compressed_at = none;
  last_compressed_entry_count = 0;
}

abbrev full : String
full = "[dlq] a task was moved\n\nplain words about the task\n\nthe last entry at the end"

read_within_example :
    (older : List String) × (middle : List String) × (kept : List String) × (summary : String)
    × (parse_entries full ≡ older ++ (middle ++ kept))
    × (summary ≡ summary_of show 16 (total (middle ++ kept)) older)
    × ((read show s full 7).1 ≡ joined summary kept)
    × Fits (16 / 2) (middle ++ kept)
    × ((kept ≡ []) ⊎ (total kept + (separator_tokens older + estimate_tokens summary) ≤ 16))
    × ((read show s full 7).0.last_compressed_entry_count ≡ length (parse_entries full))
read_within_example = read_within show s full 7 refl (omega arith)

-- the one fact is longer than the summary may be, so the last entry is given up
read_test : (read show s full 7).1 ≡ "[Summary: n]\n[dlq] a task was moved\n\n"
unfolding read compress take_recent trim_keep summary_of joined summarize_entries facts_of
    facts_of_lines is_key_fact cap_facts parse_entries trim split_paragraphs join to_lower_case
    includes_text
read_test = refl
