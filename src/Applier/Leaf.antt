-- ===== src/Applier/Leaf.antt =====
-- packages/shared/src/memory-applier-state.ts: the files of the native memory, their images, and the
-- writes that compare before they replace. The bytes of a file are given as the text they encode. The
-- identity of a file, its device, inode and time of change, is one number that each write renews.
pub mod Writes
use claude_code_telegram_kit.Prelude.{
  ℕ, zero, suc, ◌+◌, ◌-◌, ◌*◌, ◌/◌, ◌%◌, ◌^◌, ◌≤◌, ◌<◌, String, Option, none, some, Bool, true,
  false, not, ◌&&◌, ◌||◌, ◌≡◌, ◌≢◌, ◌⊎◌, ◌↔◌, refl, sym, ap, ◌∙◌, inl, inr, List, [], ◌∷◌, ◌++◌,
  map, append-nil, append_assoc, arith, str_eq, eq_iff, eq_refl, if◌then◌else◌, ltb, leb, ◌==◌,
  Bool-cases, Option-cases, length, length-append, length-map, is_some, any, all, All, get_elem?,
  utf16_length, utf16_length-append, utf16_length-join_lines, utf16_length-decimal, joined_length,
  joined_length-append, join_lines, decimal, ◌<>◌, max, min,
}
use claude_code_telegram_kit.Prelude.JsMap
use claude_code_telegram_kit.Prelude.JsMap.{JsMap}
use claude_code_telegram_kit.Prelude.Uuid.{codes}
use claude_code_telegram_kit.Applier.Names.{
  is_lower, is_digit, is_alnum, is_hex_digit, is_hex, is_digest, is_release, is_prompt_char,
  is_prompt_id, topic_tail, is_topic_from, is_topic, same_codes, md, name_tail, is_name_from,
  index_name, is_memory_name, topic_file,
}

abbrev pub max_memory_file_bytes : ℕ
max_memory_file_bytes = 65536

-- `is_safe` is false for what is no regular file, has other links, is writable by others or
-- belongs to another user.
pub record Leaf : Type 0 where
  pub bytes : String
  pub mode : ℕ
  pub stamp : ℕ
  pub is_safe : Bool

-- the directory of the native memory; `next` is the identity of the next file
pub record Memory : Type 0 where
  pub leaves : JsMap Leaf
  pub next : ℕ

-- the fields of an image that are null together
pub record Content : Type 0 where
  pub sha256 : String
  pub mode : ℕ
  pub stamp : ℕ
  pub bytes : String

pub record MemoryLeafImage : Type 0 where
  pub path : String
  pub content : Option Content

-- the bytes of one code point in UTF-8
abbrev byte_width : ℕ → ℕ
byte_width c = if ltb c 0x80 then 1 else if ltb c 0x800 then 2 else if ltb c 0x10000 then 3 else 4

abbrev byte_total : List ℕ → ℕ
byte_total [] = 0
byte_total (c ∷ cs) = byte_width c + byte_total cs

unfoldable pub byte_length : String → ℕ
byte_length s = byte_total (codes s)

unfoldable pub is_capturable : Leaf → Bool
is_capturable leaf = leaf.is_safe && leb (byte_length leaf.bytes) max_memory_file_bytes

abbrev same_content : Option Content → Option Content → Bool
same_content none none = true
same_content (some a) (some b) = str_eq a.sha256 b.sha256 && a.mode == b.mode && a.stamp == b.stamp
same_content _ _ = false

-- `sameMemoryImage`
unfoldable pub same_image : MemoryLeafImage → MemoryLeafImage → Bool
same_image left right = str_eq left.path right.path && same_content left.content right.content

unfoldable pub mode_for : Option Content → ℕ
mode_for none = 0o644
mode_for (some c) = c.mode

-- the rename of the temporary file over the target
unfoldable pub replace : Memory → MemoryLeafImage → String → Memory
replace m before bytes = record {
  leaves =
      JsMap.put m.leaves before.path
        (record { bytes = bytes; mode = mode_for before.content; stamp = m.next; is_safe = true });
  next = m.next + 1;
}

unfoldable pub sha_of : Option Content → Option String
sha_of none = none
sha_of (some c) = some c.sha256

unfoldable pub sha_of_image : Option MemoryLeafImage → Option (Option String)
sha_of_image none = none
sha_of_image (some image) = some (sha_of image.content)

-- SHA-256, in hexadecimal, is computed by the platform.
module _ (hash : String → String) where
  unfoldable pub image_of : String → Leaf → MemoryLeafImage
  image_of path leaf = record {
    path = path;
    content = some (record {
      sha256 = hash leaf.bytes;
      mode = leaf.mode;
      stamp = leaf.stamp;
      bytes = leaf.bytes;
    });
  }

  unfoldable pub image_of_leaf : String → Option Leaf → Option MemoryLeafImage
  image_of_leaf path none = some (record { path = path; content = none })
  image_of_leaf path (some leaf) = if is_capturable leaf then some (image_of path leaf) else none

  -- `captureMemoryLeaf`; none is an error
  unfoldable pub capture : Memory → String → Option MemoryLeafImage
  capture m path =
      if is_memory_name path then image_of_leaf path (JsMap.get m.leaves path) else none

  -- the file that was written reads back with the hash of what was written
  unfoldable pub reads_back : Memory → String → String → Bool
  reads_back m path bytes = elim (capture m path) [
    | none ↦ false
    | some image ↦ elim image.content [ none ↦ false | some c ↦ str_eq c.sha256 (hash bytes) ]
  ]

  -- what is there now is the image that was expected
  unfoldable pub is_current : Memory → MemoryLeafImage → Bool
  is_current m before = elim (capture m before.path) [
    | none ↦ false
    | some current ↦ same_image current before
  ]

  -- `writeMemoryLeafCas`: the memory after it, and whether it did not throw
  unfoldable pub write_cas : Memory → MemoryLeafImage → String → Memory × Bool
  write_cas m before bytes =
      let written = replace m before bytes in
      if ltb max_memory_file_bytes (byte_length bytes) || not (is_memory_name before.path)
      then (m, false)
      else if is_current m before
      then (written, reads_back written before.path bytes)
      else (m, false)

  -- `removeMemoryLeafCas`
  unfoldable pub remove_cas : Memory → MemoryLeafImage → Memory × Bool
  remove_cas m expected =
      if not (is_some expected.content)
      then (m, true)
      else if is_current m expected
      then (record m { leaves = JsMap.delete m.leaves expected.path }, true)
      else (m, false)

  -- the hash of a file, and none within for a missing file; none where it cannot be captured
  abbrev pub sha_at : Memory → String → Option (Option String)
  sha_at m path = sha_of_image (capture m path)
