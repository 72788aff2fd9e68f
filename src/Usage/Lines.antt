-- ===== src/Usage/Lines.antt =====
-- packages/session-control-mcp/src/usage-queue-watcher.ts: `readAppendedLines`, which cuts what was
-- appended to a transcript into lines. Bytes are numbers. A failing read is not modelled.
pub mod Chunks
use claude_code_telegram_kit.Prelude.{
  ℕ, zero, suc, ◌+◌, ◌-◌, ◌*◌, ◌/◌, ◌%◌, ◌^◌, ◌≤◌, ◌<◌, String, Option, none, some, Bool, true,
  false, not, ◌&&◌, ◌||◌, ◌≡◌, ◌≢◌, ◌⊎◌, ◌↔◌, refl, sym, ap, ◌∙◌, inl, inr, List, [], ◌∷◌, ◌++◌,
  map, append-nil, append_assoc, arith, str_eq, eq_iff, eq_refl, if◌then◌else◌, ltb, leb, ◌==◌,
  Bool-cases, Option-cases, length, length-append, length-map, is_some, any, all, All, get_elem?,
  utf16_length, utf16_length-append, utf16_length-join_lines, utf16_length-decimal, joined_length,
  joined_length-append, join_lines, decimal, ◌<>◌, max, min,
}

abbrev pub max_scan_bytes : ℕ
max_scan_bytes = 262144

abbrev pub max_line_bytes : ℕ
max_line_bytes = 65536

abbrev pub newline : ℕ
newline = 10

-- the fields of `TrackedTranscript` that the reading of lines uses
pub record Reader : Type 0 where
  pub offset : ℕ
  pub pending : List ℕ
  pub skip_oversized_line : Bool

-- What stands up to the next newline is a line, if it is not empty and not too long; the line that
-- belongs to a dropped start is skipped.
unfoldable pub accept : Bool → List ℕ → List (List ℕ)
accept true line = []
accept false line =
    if ltb 0 (length line) && leb (length line) max_line_bytes then line ∷ [] else []

-- The loop over `pending.indexOf(0x0a)`: `line` is what was passed since the last newline. The
-- result is the lines, what is left after the last newline, and whether a skip is still due.
unfoldable pub cut : Bool → List ℕ → List ℕ → List (List ℕ) × List ℕ × Bool
cut skip line [] = ([], line, skip)
cut skip line (byte ∷ bytes) =
    let at_newline = cut false [] bytes in
    let further = cut skip (line ++ byte ∷ []) bytes in
    if byte == newline
    then (accept skip line ++ at_newline.0, at_newline.1, at_newline.2)
    else further

-- what is kept of the rest
unfoldable pub keep_rest : ℕ → List ℕ → Bool → Reader
keep_rest offset rest skip =
    if ltb max_line_bytes (length rest)
    then record { offset = offset; pending = []; skip_oversized_line = true }
    else record { offset = offset; pending = rest; skip_oversized_line = skip }

-- the last byte of what was appended, if a byte can be read there
unfoldable pub ends_line : List ℕ → Bool
ends_line [] = false
ends_line (byte ∷ []) = byte == newline
ends_line (byte ∷ next ∷ bytes) = ends_line (next ∷ bytes)

-- `readAppendedLines`, with the bytes that were appended since the last reading
unfoldable pub read_appended : Reader → List ℕ → Reader × List (List ℕ)
read_appended r [] = (r, [])
read_appended r (byte ∷ bytes) =
    let chunk = byte ∷ bytes in
    let result = cut r.skip_oversized_line [] (r.pending ++ chunk) in
    if ltb max_scan_bytes (length chunk)
    then (
      record {
        offset = r.offset + length chunk;
        pending = [];
        skip_oversized_line = not (ends_line chunk);
      },
      [],
    )
    else (keep_rest (r.offset + length chunk) result.1 result.2, result.0)

-- the readings of one transcript after another
unfoldable pub read_all : Reader → List (List ℕ) → Reader × List (List ℕ)
read_all r [] = (r, [])
read_all r (chunk ∷ chunks) =
    let first = read_appended r chunk in
    let rest = read_all first.0 chunks in (rest.0, first.1 ++ rest.1)
