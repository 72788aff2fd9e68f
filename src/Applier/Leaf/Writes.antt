-- ===== src/Applier/Leaf/Writes.antt =====
-- What a compared write or removal leaves.
use claude_code_telegram_kit.Prelude.{
  String, none, some, true, false, ◌≡◌, refl, inl, inr, arith, str_eq, eq_iff, eq_refl,
  if◌then◌else◌, leb, Option-cases, is_some,
}
use claude_code_telegram_kit.Prelude.JsMap
use claude_code_telegram_kit.Prelude.JsMap.{JsMap}
use claude_code_telegram_kit.Applier.Names.{is_memory_name}
use claude_code_telegram_kit.Applier.Leaf.{
  max_memory_file_bytes, Leaf, Memory, MemoryLeafImage, byte_length, is_capturable, image_of,
  image_of_leaf, capture, same_image, mode_for, replace, reads_back, is_current, write_cas,
  remove_cas, sha_of, sha_of_image, sha_at,
}

get-removed :
    (m : JsMap Leaf) (k j : String)
    → JsMap.get (JsMap.delete m k) j ≡ (if str_eq k j then none else JsMap.get m j)
get-removed m k j = JsMap.get-delete m k j

module _ (hash : String → String) where
  get-replace :
      (m : Memory) (before : MemoryLeafImage) (bytes path : String)
      → str_eq before.path path ≡ false
      → JsMap.get (replace m before bytes).leaves path ≡ JsMap.get m.leaves path
  unfolding replace
  get-replace m before bytes path h =
      rw
        (
          JsMap.get-put m.leaves before.path path (record {
            bytes = bytes;
            mode = mode_for before.content;
            stamp = m.next;
            is_safe = true;
          }),
          h,
        )
        refl

  -- every write is of the one file it names
  pub write_cas-other :
      (m : Memory) (before : MemoryLeafImage) (bytes path : String)
      → str_eq before.path path ≡ false
      → JsMap.get (write_cas hash m before bytes).0.leaves path ≡ JsMap.get m.leaves path
  unfolding write_cas
  write_cas-other m before bytes path h = ground (arith, get-replace m before bytes path)

  pub remove_cas-other :
      (m : Memory) (expected : MemoryLeafImage) (path : String)
      → str_eq expected.path path ≡ false
      → JsMap.get (remove_cas hash m expected).0.leaves path ≡ JsMap.get m.leaves path
  unfolding remove_cas
  remove_cas-other m expected path h = ground (arith, get-removed m.leaves expected.path path)

  -- a write that fails before the rename leaves the memory as it was
  pub write_cas_stale :
      (m : Memory) (before : MemoryLeafImage) (bytes : String)
      → is_current hash m before ≡ false
      → write_cas hash m before bytes ≡ (m, false)
  unfolding write_cas
  write_cas_stale m before bytes h = ground arith

  -- the image that was captured is current
  pub capture-is_current :
      (m : Memory) (path : String) (image : MemoryLeafImage)
      → capture hash m path ≡ some image
      → is_current hash m image ≡ true
  unfolding capture is_current image_of_leaf image_of same_image
  capture-is_current m path image h = elim (Option-cases (JsMap.get m.leaves path)) [
    | inl gone ↦ ground (arith, eq_refl path)
    | inr (leaf, found) ↦ ground (arith, eq_refl path, eq_refl (hash leaf.bytes))
  ]

  -- what a file holds after a write that was let through
  pub capture-replace :
      (m : Memory) (before : MemoryLeafImage) (bytes : String)
      → is_memory_name before.path ≡ true
      → leb (byte_length bytes) max_memory_file_bytes ≡ true
      → capture hash (replace m before bytes) before.path
        ≡ some (
            image_of hash before.path (record {
              bytes = bytes;
              mode = mode_for before.content;
              stamp = m.next;
              is_safe = true;
            }))
  unfolding capture replace image_of_leaf is_capturable
  capture-replace m before bytes h k =
      rw
        (
          h,
          JsMap.get-put m.leaves before.path before.path (record {
            bytes = bytes;
            mode = mode_for before.content;
            stamp = m.next;
            is_safe = true;
          }),
          eq_refl before.path,
          k,
        )
        refl

  pub capture-path :
      (m : Memory) (path : String) (image : MemoryLeafImage)
      → capture hash m path ≡ some image
      → (image.path ≡ path) × (is_memory_name path ≡ true)
  unfolding capture image_of_leaf image_of
  capture-path m path image h = elim (Option-cases (JsMap.get m.leaves path)) [
    | inl gone ↦ ground arith
    | inr (leaf, found) ↦ ground arith
  ]

  pub reads_back-replace :
      (m : Memory) (before : MemoryLeafImage) (bytes : String)
      → is_memory_name before.path ≡ true
      → leb (byte_length bytes) max_memory_file_bytes ≡ true
      → reads_back hash (replace m before bytes) before.path bytes ≡ true
  unfolding reads_back image_of
  reads_back-replace m before bytes name small =
      rw (reads_back, capture-replace m before bytes name small) (eq_refl (hash bytes))

  -- a compared write from the image that was captured is let through
  pub write_cas_lem :
      (m : Memory) (path bytes : String) (image : MemoryLeafImage)
      → capture hash m path ≡ some image
      → leb (byte_length bytes) max_memory_file_bytes ≡ true
      → write_cas hash m image bytes ≡ (replace m image bytes, true)
  unfolding write_cas
  write_cas_lem m path bytes image h small =
      let named = capture-path m path image h in
      let name : is_memory_name image.path ≡ true = rw (named.0) (named.1) in
      let now : is_current hash m image ≡ true = capture-is_current m path image h in
      let read = reads_back-replace m image bytes name small in ground arith

  -- after a write that did not throw the file has the hash of what was written
  pub sha_at-write_cas :
      (m : Memory) (before : MemoryLeafImage) (bytes : String)
      → (write_cas hash m before bytes).1 ≡ true
      → sha_at hash (write_cas hash m before bytes).0 before.path ≡ some (some (hash bytes))
  unfolding write_cas reads_back sha_of_image sha_of
  sha_at-write_cas m before bytes h =
      ground (arith, read_sha (replace m before bytes) before.path bytes)
    where
      read_sha :
          (n : Memory) (path bytes : String)
          → reads_back hash n path bytes ≡ true
          → sha_at hash n path ≡ some (some (hash bytes))
      read_sha n path bytes h = elim (Option-cases (capture hash n path)) [
        | inl gone ↦ ground arith
        | inr (image, found) ↦ elim (Option-cases image.content) [
          | inl gone ↦ ground arith
          | inr (c, there) ↦ ground (arith, eq_iff c.sha256 (hash bytes))
        ]
      ]

  -- a removal that did not throw, of a file that was there, leaves no file
  pub sha_at-remove_cas :
      (m : Memory) (expected : MemoryLeafImage)
      → is_some expected.content ≡ true
      → is_memory_name expected.path ≡ true
      → (remove_cas hash m expected).1 ≡ true
      → sha_at hash (remove_cas hash m expected).0 expected.path ≡ some none
  unfolding remove_cas capture image_of_leaf sha_of_image sha_of
  sha_at-remove_cas m expected there name ok = ground (arith, removed)
    where
      removed :
          sha_at hash (record m { leaves = JsMap.delete m.leaves expected.path }) expected.path
          ≡ some none
      removed =
          rw (name, get-removed m.leaves expected.path expected.path, eq_refl expected.path) refl

  -- the hash of a file depends on that file only
  pub sha_at-leaf :
      (m n : Memory) (path : String)
      → JsMap.get m.leaves path ≡ JsMap.get n.leaves path
      → sha_at hash m path ≡ sha_at hash n path
  unfolding capture
  sha_at-leaf m n path h = rw h refl
