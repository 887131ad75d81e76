-- ===== src/ContextCompressor.antt =====
-- Keeping the memory that agents read within a number of tokens: src/adapters/context-compressor.ts.
-- What the inner store holds, the time and the printing of a number are arguments; the length of a text
-- counts its characters. An entry is its text: those that are not kept are the older ones.
pub mod Budget
mod Tests
use mathlib.Core.List.{reverse}
use jabr.Base.{
  ℕ, ◌+◌, ◌-◌, ◌/◌, String, Bool, true, false, not, ◌&&◌, ◌||◌, Option, none, some, List, [], ◌∷◌,
  ◌++◌, ltb, leb, max, if◌then◌else◌, length, filter, any, includes, str_eq, starts_with,
  includes_text, to_lower_case, trim, split_on, split_paragraphs, join, concat, count,
}

pub record ContextCompressor : Type 0 where
  pub max_tokens : ℕ
  pub enabled : Bool
  pub last_compressed_at : Option ℕ
  pub last_compressed_entry_count : ℕ

-- a quarter of the length, rounded up
abbrev pub estimate_tokens : String → ℕ
estimate_tokens text = max 1 ((count text + 3) / 4)

abbrev pub is_blank : String → Bool
unfolding trim
is_blank text = str_eq (trim text) ""

pub parse_entries : String → List String
unfolding split_paragraphs is_blank
parse_entries full = filter (λ e. not (is_blank e)) (split_paragraphs full)

abbrev fact_prefixes : List String
fact_prefixes =
    "[depth" ∷ "[dlq" ∷ "[palace" ∷ "[acl" ∷ "[security" ∷ "[error" ∷ "[fail" ∷ "[reject"
    ∷ "[budget" ∷ "[verify" ∷ "[handover" ∷ "[circular" ∷ "[retry" ∷ "[purge" ∷ "[evict" ∷ []

abbrev fact_words : List String
fact_words = "error" ∷ "fail" ∷ "reject" ∷ "denied" ∷ "contest" ∷ "exhaust" ∷ "overflow" ∷ []

pub is_key_fact : String → Bool
unfolding to_lower_case includes_text
is_key_fact line =
    let lower = to_lower_case line in
    any (λ p. starts_with lower p) fact_prefixes || any (λ w. includes_text lower w) fact_words

-- the new facts among the lines of one entry
pub facts_of_lines : List String → List String → List String
unfolding is_key_fact trim
facts_of_lines seen [] = seen
facts_of_lines seen (raw ∷ lines) =
    let line = trim raw in
    facts_of_lines
      (if not (str_eq line "") && (is_key_fact line && not (includes seen line))
        then seen ++ line ∷ []
        else seen)
      lines

pub facts_of : List String → List String → List String
unfolding facts_of_lines split_on
facts_of seen [] = seen
facts_of seen (entry ∷ entries) = facts_of (facts_of_lines seen (split_on b'\n' entry)) entries

-- the facts that fit, and the first one in any case
pub cap_facts : ℕ → ℕ → List String → List String → List String
cap_facts available used capped [] = capped
cap_facts available used capped (fact ∷ facts) =
    let more = cap_facts available (used + estimate_tokens fact) (capped ++ fact ∷ []) facts in
    if ltb available (used + estimate_tokens fact) && ltb 0 (length capped) then capped else more

abbrev header_of : (ℕ → String) → List String → String
header_of show entries = concat "[Summary: " (concat (show (length entries)) "]")

abbrev with_facts : String → ℕ → List String → String
unfolding cap_facts join
with_facts header budget [] = header
with_facts header budget (fact ∷ facts) = concat header (
    concat "\n"
      (join "\n" (cap_facts (max 0 (budget - estimate_tokens header)) 0 [] (fact ∷ facts))))

pub summarize_entries : (ℕ → String) → List String → ℕ → String
unfolding facts_of with_facts
summarize_entries show entries budget =
    with_facts (header_of show entries) budget (facts_of [] entries)

-- the entries that are kept, in order, their tokens, and the older ones, the last first
pub record Recent : Type 0 where
  pub keep : List String
  pub keep_tokens : ℕ
  pub older : List String

-- the loop from the end: `rest` has the entries that are left, the last first
pub take_recent : ℕ → List String → ℕ → List String → Recent
take_recent budget keep tokens [] = record { keep = keep; keep_tokens = tokens; older = [] }
take_recent budget keep tokens (entry ∷ rest) =
    let more = take_recent budget (entry ∷ keep) (tokens + estimate_tokens entry) rest in
    if ltb budget (tokens + estimate_tokens entry) && ltb 0 (length keep)
    then record { keep = keep; keep_tokens = tokens; older = entry ∷ rest }
    else more

-- the `while` that gives up kept entries, the oldest first
pub trim_keep : ℕ → ℕ → List String → ℕ → List String
trim_keep max_tokens other [] tokens = []
trim_keep max_tokens other (entry ∷ keep) tokens =
    let fewer = trim_keep max_tokens other keep (tokens - estimate_tokens entry) in
    if ltb max_tokens (tokens + other) then fewer else entry ∷ keep

abbrev pub separator_tokens : List String → ℕ
separator_tokens [] = 0
separator_tokens (entry ∷ entries) = 1

abbrev pub summary_of : (ℕ → String) → ℕ → ℕ → List String → String
unfolding summarize_entries
summary_of show max_tokens keep_tokens [] = ""
summary_of show max_tokens keep_tokens (entry ∷ entries) =
    summarize_entries show (entry ∷ entries) (max 0 (max_tokens - keep_tokens - 1))

abbrev pub joined : String → List String → String
unfolding join
joined summary keep =
    if str_eq summary ""
    then join "\n\n" keep
    else concat summary (concat "\n\n" (join "\n\n" keep))

pub compress : (ℕ → String) → ℕ → List String → String
unfolding take_recent trim_keep summary_of joined
compress show max_tokens entries =
    let recent = take_recent (max_tokens / 2) [] 0 (reverse entries) in
    let older = reverse recent.older in
    let summary = summary_of show max_tokens recent.keep_tokens older in
    joined summary (
      trim_keep max_tokens (separator_tokens older + estimate_tokens summary) recent.keep
        recent.keep_tokens)

-- `full` is what the inner store reads
pub read : (ℕ → String) → ContextCompressor → String → ℕ → ContextCompressor × String
unfolding compress parse_entries
read show s full now =
    if not s.enabled || leb (estimate_tokens full) s.max_tokens then (s, full) else (
      record s {
        last_compressed_at = some now;
        last_compressed_entry_count = length (parse_entries full);
      },
      compress show s.max_tokens (parse_entries full),
    )
