-- ===== src/Usage/Lines/Chunks.antt =====
-- The lines do not depend on how the bytes were divided among the readings.
use claude_code_telegram_kit.Prelude.{
  ℕ, ◌+◌, ◌≤◌, ◌<◌, Bool, true, false, ◌&&◌, ◌≡◌, refl, sym, ◌∙◌, inl, inr, List, [], ◌∷◌, ◌++◌,
  append-nil, append_assoc, arith, if◌then◌else◌, ltb, leb, ◌==◌, Bool-cases, ltb→lt, length,
  length-append,
}
use claude_code_telegram_kit.Usage.Lines.{
  max_scan_bytes, max_line_bytes, newline, Reader, accept, cut, keep_rest, read_appended, read_all,
}

-- the bytes of all readings
abbrev pub joined : List (List ℕ) → List ℕ
joined [] = []
joined (chunk ∷ chunks) = chunk ++ joined chunks

-- no reading is longer than what is scanned
abbrev pub AllShort : List (List ℕ) → Type 0
AllShort [] = Unit
AllShort (chunk ∷ chunks) = (length chunk ≤ max_scan_bytes) × AllShort chunks

-- The reference: all the lines that a newline ends, in order, where `line` is the start of the
-- first one.
unfoldable pub complete_lines : List ℕ → List ℕ → List (List ℕ)
complete_lines line [] = []
complete_lines line (byte ∷ bytes) =
    let at_newline = complete_lines [] bytes in
    let further = complete_lines (line ++ byte ∷ []) bytes in
    if byte == newline then line ∷ at_newline else further

-- the lines that are neither empty nor too long
unfoldable pub fitting : List (List ℕ) → List (List ℕ)
fitting [] = []
fitting (line ∷ lines) =
    let rest = fitting lines in
    if ltb 0 (length line) && leb (length line) max_line_bytes then line ∷ rest else rest

-- the bytes since the last newline
unfoldable open_line : List ℕ → List ℕ → List ℕ
open_line line [] = line
open_line line (byte ∷ bytes) =
    let at_newline = open_line [] bytes in
    let further = open_line (line ++ byte ∷ []) bytes in
    if byte == newline then at_newline else further

-- Without a newline, so that the loop passes it.
abbrev IsOpen : List ℕ → Type 0
IsOpen [] = Unit
IsOpen (byte ∷ bytes) = ((byte == newline) ≡ false) × IsOpen bytes

IsOpen-snoc :
    (line : List ℕ) (byte : ℕ)
    → IsOpen line
    → (byte == newline) ≡ false
    → IsOpen (line ++ byte ∷ [])
IsOpen-snoc [] byte o n = (n, tt)
IsOpen-snoc (b ∷ line) byte (m, o) n = (m, IsOpen-snoc line byte o n)

cut-open :
    (skip : Bool) (line p bytes : List ℕ)
    → IsOpen p
    → cut skip line (p ++ bytes) ≡ cut skip (line ++ p) bytes
unfolding cut
cut-open skip line [] bytes o = rw (append-nil line) refl
cut-open skip line (byte ∷ p) bytes (n, o) =
    rw n (cut-open skip (line ++ byte ∷ []) p bytes o ∙ rw (append_assoc line (byte ∷ []) p) refl)

cut_rest-IsOpen : (skip : Bool) (line bytes : List ℕ) → IsOpen line → IsOpen (cut skip line bytes).1
unfolding cut
cut_rest-IsOpen skip line [] o = o
cut_rest-IsOpen skip line (byte ∷ bytes) o = elim (Bool-cases (byte == newline)) [
  | inl ends ↦ rw ends (cut_rest-IsOpen false [] bytes tt)
  | inr goes ↦
      rw goes (cut_rest-IsOpen skip (line ++ byte ∷ []) bytes (IsOpen-snoc line byte o goes))
]

-- The state of a reader stands for the open line: it holds it, or it skips it as too long.
pub data Stands : Bool → List ℕ → List ℕ → Type 0 where
  whole : (line : List ℕ) → Stands false line line
  dropped : (p line : List ℕ) → max_line_bytes < length line → Stands true p line

accept_lem :
    (skip : Bool) (p line : List ℕ) → Stands skip p line → accept skip p ≡ fitting (line ∷ [])
unfolding accept fitting
accept_lem _ _ _ (whole line) = refl
accept_lem _ _ _ (dropped p line long) = ground arith

Stands-snoc :
    (skip : Bool) (p line : List ℕ) (byte : ℕ)
    → Stands skip p line
    → Stands skip (p ++ byte ∷ []) (line ++ byte ∷ [])
Stands-snoc _ _ _ byte (whole line) = whole (line ++ byte ∷ [])
Stands-snoc _ _ _ byte (dropped p line long) =
    dropped (p ++ byte ∷ []) (line ++ byte ∷ [])
      (omega (arith, long, length-append line (byte ∷ [])))

fitting-append : (ls ms : List (List ℕ)) → fitting (ls ++ ms) ≡ fitting ls ++ fitting ms
unfolding fitting
fitting-append [] ms = refl
fitting-append (l ∷ ls) ms = ground (arith, fitting-append ls ms)

-- The loop finds the lines that the reference finds, whatever state stands for the open line.
cut_lem :
    (skip : Bool) (p line bytes : List ℕ)
    → Stands skip p line
    → ((cut skip p bytes).0 ≡ fitting (complete_lines line bytes))
      × Stands (cut skip p bytes).2 (cut skip p bytes).1 (open_line line bytes)
unfolding cut complete_lines open_line fitting
cut_lem skip p line [] s = (refl, s)
cut_lem skip p line (byte ∷ bytes) s = elim (Bool-cases (byte == newline)) [
  | inl ends ↦
      let (same, stands) = cut_lem false [] [] bytes (whole []) in
      rw ends (
        rw (accept_lem skip p line s, same)
            (sym (fitting-append (line ∷ []) (complete_lines [] bytes))),
        stands,
      )
  | inr goes ↦
      rw goes
        (cut_lem skip (p ++ byte ∷ []) (line ++ byte ∷ []) bytes (Stands-snoc skip p line byte s))
]

keep_rest-Stands :
    (offset : ℕ) (rest : List ℕ) (skip : Bool) (line : List ℕ)
    → Stands skip rest line
    → Stands
        (keep_rest offset rest skip).skip_oversized_line
        (keep_rest offset rest skip).pending
        line
unfolding keep_rest
keep_rest-Stands offset _ _ _ (whole line) = elim (Bool-cases (ltb max_line_bytes (length line))) [
  | inl long ↦ rw long (dropped [] line (ltb→lt max_line_bytes (length line) long))
  | inr short ↦ rw short (whole line)
]
keep_rest-Stands offset _ _ _ (dropped p line l) =
    elim (Bool-cases (ltb max_line_bytes (length p))) [
      | inl long ↦ rw long (dropped [] line l)
      | inr short ↦ rw short (dropped p line l)
    ]

keep_rest-IsOpen :
    (offset : ℕ) (rest : List ℕ) (skip : Bool)
    → IsOpen rest
    → IsOpen (keep_rest offset rest skip).pending
unfolding keep_rest
keep_rest-IsOpen offset rest skip o = elim (Bool-cases (ltb max_line_bytes (length rest))) [
  | inl long ↦ rw long tt
  | inr short ↦ rw short o
]

-- the state of a reader between two readings
record IsReady (r : Reader) (line : List ℕ) : Type 0 where
  no_newline : IsOpen r.pending
  stands : Stands r.skip_oversized_line r.pending line

read_appended_lem :
    (r : Reader) (line chunk : List ℕ)
    → length chunk ≤ max_scan_bytes
    → IsReady r line
    → ((read_appended r chunk).1 ≡ fitting (complete_lines line chunk))
      × IsReady (read_appended r chunk).0 (open_line line chunk)
unfolding read_appended complete_lines open_line fitting
read_appended_lem r line [] short ready = (refl, ready)
read_appended_lem r line (byte ∷ bytes) short ready =
    let chunk = byte ∷ bytes in
    let scanned : ltb max_scan_bytes (length chunk) ≡ false = ground arith in
    let passed = cut-open r.skip_oversized_line [] r.pending chunk ready.no_newline in
    let result = cut r.skip_oversized_line r.pending chunk in
    let (same, stands) = cut_lem r.skip_oversized_line r.pending line chunk ready.stands in
    rw (scanned, passed)
      (
        same,
        record {
          no_newline =
              keep_rest-IsOpen (r.offset + length chunk) result.1 result.2
                (cut_rest-IsOpen r.skip_oversized_line r.pending chunk ready.no_newline);
          stands =
              keep_rest-Stands (r.offset + length chunk) result.1 result.2 (open_line line chunk)
                stands;
        },
      )

complete_lines-append :
    (line a b : List ℕ)
    → complete_lines line (a ++ b) ≡ complete_lines line a ++ complete_lines (open_line line a) b
unfolding complete_lines open_line
complete_lines-append line [] b = refl
complete_lines-append line (byte ∷ a) b =
    ground (arith, complete_lines-append [] a b, complete_lines-append (line ++ byte ∷ []) a b)

read_all_from :
    (r : Reader) (line : List ℕ) (chunks : List (List ℕ))
    → AllShort chunks
    → IsReady r line
    → (read_all r chunks).1 ≡ fitting (complete_lines line (joined chunks))
unfolding read_all complete_lines fitting
read_all_from r line [] short ready = refl
read_all_from r line (chunk ∷ chunks) (s, short) ready =
    let (same, ready') = read_appended_lem r line chunk s ready in
    rw
      (
        same,
        read_all_from (read_appended r chunk).0 (open_line line chunk) chunks short ready',
        complete_lines-append line chunk (joined chunks),
      )
      (sym (
        fitting-append (complete_lines line chunk)
          (complete_lines (open_line line chunk) (joined chunks))))

abbrev pub reader_at : ℕ → Reader
reader_at offset = record { offset = offset; pending = []; skip_oversized_line = false }

-- From a fresh reader, if no reading finds more than 256 KiB, the lines of all readings together
-- are the lines of all the bytes that a newline ends and that are neither empty nor longer than
-- 64 KiB: they do not depend on how the bytes were divided among the readings.
pub read_all_lem :
    (offset : ℕ) (chunks : List (List ℕ))
    → AllShort chunks
    → (read_all (reader_at offset) chunks).1 ≡ fitting (complete_lines [] (joined chunks))
read_all_lem offset chunks short =
    read_all_from (reader_at offset) [] chunks short (record { no_newline = tt; stands = whole [] })
