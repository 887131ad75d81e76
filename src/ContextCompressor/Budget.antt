-- ===== src/ContextCompressor/Budget.antt =====
-- What compression keeps, and in how many tokens: src/adapters/context-compressor.ts.
use mathlib.Core.List.{reverse, reverse-cons, reverse-reverse, append_assoc, append-nil}
use jabr.Base.{
  ℕ, ◌+◌, ◌-◌, ◌/◌, ◌≤◌, ◌<◌, String, ◌≡◌, ◌∙◌, ◌⊎◌, inl, inr, refl, ap, sym, true, false, not,
  ◌&&◌, ◌||◌, List, [], ◌∷◌, ◌++◌, ltb, leb, length, arith, Bool-cases,
}
use jabr.ContextCompressor.{
  ContextCompressor, estimate_tokens, parse_entries, Recent, take_recent, trim_keep,
  separator_tokens, summary_of, joined, compress, read,
}

abbrev pub total : List String → ℕ
total [] = 0
total (entry ∷ entries) = estimate_tokens entry + total entries

-- at most one entry, or within the budget
abbrev pub Fits : ℕ → List String → Type 0
Fits budget keep = (length keep ≤ 1) ⊎ (total keep ≤ budget)

record Splits (budget : ℕ) (all : List String) (r : Recent) : Type 0 where
  parts : all ≡ reverse r.older ++ r.keep
  counted : r.keep_tokens ≡ total r.keep
  fits : Fits budget r.keep

Fits-more :
    (budget : ℕ) (keep : List String) (entry : String)
    → (ltb budget (total keep + estimate_tokens entry) && ltb 0 (length keep)) ≡ false
    → Fits budget (entry ∷ keep)
Fits-more budget [] entry h = inl (omega arith)
Fits-more budget (x ∷ keep) entry h = inr (ground (arith, h))

take_recent-Splits :
    (budget : ℕ) (rest keep : List String) (tokens : ℕ)
    → tokens ≡ total keep
    → Fits budget keep
    → Splits budget (reverse rest ++ keep) (take_recent budget keep tokens rest)
unfolding take_recent
take_recent-Splits budget [] keep tokens counted fits = record {
  parts = refl;
  counted = counted;
  fits = fits;
}
take_recent-Splits budget (entry ∷ rest) keep tokens counted fits =
    elim (Bool-cases (ltb budget (tokens + estimate_tokens entry) && ltb 0 (length keep))) [
      | inl full ↦ rw full (record { parts = refl; counted = counted; fits = fits })
      | inr open_ ↦
          let next =
            take_recent-Splits budget rest (entry ∷ keep) (tokens + estimate_tokens entry)
              (omega (arith, counted)) (Fits-more budget keep entry (rw counted at open_)) in
          let moved : reverse (entry ∷ rest) ++ keep ≡ reverse rest ++ entry ∷ keep =
            ap (λ l. l ++ keep) (reverse-cons entry rest)
            ∙ append_assoc (reverse rest) (entry ∷ []) keep in
          rw open_ (record { parts = moved ∙ next.parts; counted = next.counted; fits = next.fits })
    ]

record Trims (max_tokens other : ℕ) (keep kept : List String) : Type 0 where
  gone : List String
  parts : keep ≡ gone ++ kept
  within : (kept ≡ []) ⊎ (total kept + other ≤ max_tokens)

trim_keep-Trims :
    (max_tokens other : ℕ) (keep : List String) (tokens : ℕ)
    → tokens ≡ total keep
    → Trims max_tokens other keep (trim_keep max_tokens other keep tokens)
unfolding trim_keep
trim_keep-Trims max_tokens other [] tokens counted = record {
  gone = [];
  parts = refl;
  within = inl refl;
}
trim_keep-Trims max_tokens other (entry ∷ keep) tokens counted =
    elim (Bool-cases (ltb max_tokens (tokens + other))) [
      | inl over ↦
          let next =
            trim_keep-Trims max_tokens other keep (tokens - estimate_tokens entry)
              (omega (arith, counted)) in
          rw over (record {
            gone = entry ∷ next.gone;
            parts = ap (λ l. entry ∷ l) next.parts;
            within = next.within;
          })
      | inr fits ↦
          rw fits (record { gone = []; parts = refl; within = inr (ground (arith, fits, counted)) })
    ]

-- A text over the limit is read as a summary of the older entries and the latest ones as they are. The
-- entries are the summarized, then ones that are in neither part, then the kept. The last two are one
-- entry at most or at most half of the limit, and the kept with the summary and its separator are
-- within the limit, or none is kept. The number of entries is noted.
pub read_within :
    (show : ℕ → String) (s : ContextCompressor) (full : String) (now : ℕ)
    → s.enabled ≡ true
    → s.max_tokens < estimate_tokens full
    → (older : List String) × (middle : List String) × (kept : List String) × (summary : String)
      × (parse_entries full ≡ older ++ (middle ++ kept))
      × (summary ≡ summary_of show s.max_tokens (total (middle ++ kept)) older)
      × ((read show s full now).1 ≡ joined summary kept)
      × Fits (s.max_tokens / 2) (middle ++ kept)
      × ((kept ≡ [])
          ⊎ (total kept + (separator_tokens older + estimate_tokens summary) ≤ s.max_tokens))
      × ((read show s full now).0.last_compressed_entry_count ≡ length (parse_entries full))
unfolding read compress
read_within show s full now on over =
    let entries = parse_entries full in
    let budget = s.max_tokens / 2 in
    let r = take_recent budget [] 0 (reverse entries) in
    let cut = take_recent-Splits budget (reverse entries) [] 0 refl (inl (omega arith)) in
    let older = reverse r.older in
    let summary = summary_of show s.max_tokens r.keep_tokens older in
    let other = separator_tokens older + estimate_tokens summary in
    let fin = trim_keep-Trims s.max_tokens other r.keep r.keep_tokens cut.counted in
    let test : (not s.enabled || leb (estimate_tokens full) s.max_tokens) ≡ false =
      ground (arith, on, over) in
    let whole : entries ≡ older ++ r.keep =
      sym (append-nil (reverse (reverse entries)) ∙ reverse-reverse entries) ∙ cut.parts in
    (
      older,
      fin.gone,
      trim_keep s.max_tokens other r.keep r.keep_tokens,
      summary,
      rw fin.parts at whole,
      ap (λ n. summary_of show s.max_tokens n older) (cut.counted ∙ ap total fin.parts),
      rw test refl,
      rw fin.parts at cut.fits,
      fin.within,
      rw test refl,
    )
