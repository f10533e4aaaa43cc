-- ===== src/Storage/Atomic.antt =====
-- `Save` replaces the file as a whole, whichever calls fail.
use text.Mathlib.TextLemmas.{append_cancel_left, append-nil, cons≢nil}
use suffren.Base.{
  ◌≡◌, ◌≢◌, sym, ◌∙◌, Bool, true, false, Bool-cases, inl, inr, Option, some, Option-cases, String,
  if◌then◌else◌,
}
use suffren.Crdt.CounterMap.{CounterMap}
use suffren.Storage.{
  FileSystem, Json, temp_path, save_closed, save_synced, save_written, save_opened, save_data, save,
}

-- What is relied on, with `files` for what the paths hold: a call touches its own path only, a write
-- to a new file that has no error leaves the data there, and a rename moves a file or does nothing.
pub record IsFileSystem {S Data : Type 0} (fs : FileSystem S Data) (empty : Data)
    (files : S → String → Option Data) : Type 0 where
  pub mkdir_same : (s : S) (d q : String) → files (fs.mkdir_all s d).0 q ≡ files s q
  pub open_other : (s : S) (p q : String) → p ≢ q → files (fs.open_file s p).0 q ≡ files s q
  pub open_empty :
      (s : S) (p : String) → (fs.open_file s p).1 ≡ true → files (fs.open_file s p).0 p ≡ some empty
  pub write_other :
      (s : S) (p q : String) (d : Data) → p ≢ q → files (fs.write s p d).0 q ≡ files s q
  pub write_whole :
      (s : S) (p : String) (d : Data)
      → files s p ≡ some empty
      → (fs.write s p d).1 ≡ true
      → files (fs.write s p d).0 p ≡ some d
  pub sync_same : (s : S) (p q : String) → files (fs.sync s p).0 q ≡ files s q
  pub close_same : (s : S) (p q : String) → files (fs.close s p).0 q ≡ files s q
  pub rename_done :
      (s : S) (p q : String) → (fs.rename s p q).1 ≡ true → files (fs.rename s p q).0 q ≡ files s p
  pub rename_undone :
      (s : S) (p q : String) → (fs.rename s p q).1 ≡ false → files (fs.rename s p q).0 q ≡ files s q
  pub sync_dir_same : (s : S) (d q : String) → files (fs.sync_dir s d) q ≡ files s q

temp_path_ne : (path : String) → temp_path path ≢ path
temp_path_ne path e = cons≢nil (append_cancel_left path ".tmp" "" (e ∙ sym (append-nil path)))

module _ {S Data : Type 0} (fs : FileSystem S Data) (json : Json Data) (path : String)
    (empty : Data) (files : S → String → Option Data) (laws : IsFileSystem fs empty files) where
  -- The file is the new one if there was no error, and the old one else.
  abbrev Replaces : Option Data → Option Data → S × Bool → Type 0
  Replaces old new r = files r.0 path ≡ (if r.1 then new else old)

  closed-Replaces :
      (s : S) (old new : Option Data)
      → files s path ≡ old
      → files s (temp_path path) ≡ new
      → Replaces old new (save_closed fs json path s)
  unfolding save_closed
  closed-Replaces s old new kept temp = elim (Bool-cases (fs.rename s (temp_path path) path).1) [
    | inl t ↦
        rw (t, save_closed)
          (laws.sync_dir_same _ _ path ∙ laws.rename_done s (temp_path path) path t ∙ temp)
    | inr t ↦ rw (t, save_closed) (laws.rename_undone s (temp_path path) path t ∙ kept)
  ]

  synced-Replaces :
      (s : S) (old new : Option Data)
      → files s path ≡ old
      → files s (temp_path path) ≡ new
      → Replaces old new (save_synced fs json path s)
  unfolding save_synced
  synced-Replaces s old new kept temp = elim (Bool-cases (fs.close s (temp_path path)).1) [
    | inl t ↦
        rw (t, save_synced)
          (closed-Replaces _ old new (laws.close_same s _ path ∙ kept)
            (laws.close_same s _ _ ∙ temp))
    | inr t ↦ rw (t, save_synced) (laws.close_same s _ path ∙ kept)
  ]

  written-Replaces :
      (s : S) (old new : Option Data)
      → files s path ≡ old
      → files s (temp_path path) ≡ new
      → Replaces old new (save_written fs json path s)
  unfolding save_written
  written-Replaces s old new kept temp = elim (Bool-cases (fs.sync s (temp_path path)).1) [
    | inl t ↦
        rw (t, save_written)
          (synced-Replaces _ old new (laws.sync_same s _ path ∙ kept) (laws.sync_same s _ _ ∙ temp))
    | inr t ↦ rw (t, save_written) (laws.close_same _ _ path ∙ laws.sync_same s _ path ∙ kept)
  ]

  opened-Replaces :
      (s : S) (bytes : Data) (old : Option Data)
      → files s path ≡ old
      → files s (temp_path path) ≡ some empty
      → Replaces old (some bytes) (save_opened fs json path s bytes)
  unfolding save_opened
  opened-Replaces s bytes old kept temp = elim (Bool-cases (fs.write s (temp_path path) bytes).1) [
    | inl t ↦
        rw (t, save_opened)
          (written-Replaces _ old (some bytes)
            (laws.write_other s _ path bytes (temp_path_ne path) ∙ kept)
            (laws.write_whole s (temp_path path) bytes temp t))
    | inr t ↦
        rw (t, save_opened)
          (laws.close_same _ _ path ∙ laws.write_other s _ path bytes (temp_path_ne path) ∙ kept)
  ]

  data-Replaces :
      (s : S) (bytes : Data) (old : Option Data)
      → files s path ≡ old
      → Replaces old (some bytes) (save_data fs json path s bytes)
  unfolding save_data
  data-Replaces s bytes old kept = elim (Bool-cases (fs.open_file s (temp_path path)).1) [
    | inl t ↦
        rw (t, save_data)
          (opened-Replaces _ bytes old (laws.open_other s _ path (temp_path_ne path) ∙ kept)
            (laws.open_empty s (temp_path path) t))
    | inr t ↦ rw (t, save_data) (laws.open_other s _ path (temp_path_ne path) ∙ kept)
  ]

  -- Whichever calls of the file system fail, from whatever point on: after `Save` the file holds the
  -- JSON of the whole state if no error is returned, and else what it held before.
  pub save-Replaces :
      (s : S) (state : CounterMap)
      → files (save fs json path s state).0 path
        ≡ (if (save fs json path s state).1 then json.marshal state else files s path)
  unfolding save
  save-Replaces s state = elim (Bool-cases (fs.mkdir_all s (fs.dir path)).1) [
    | inr t ↦ rw (t, save) (laws.mkdir_same s _ path)
    | inl t ↦ elim (Option-cases (json.marshal state)) [
      | inl e ↦ rw (t, e, save) (laws.mkdir_same s _ path)
      | inr (bytes, e) ↦
          rw (t, e, save) (data-Replaces _ bytes (files s path) (laws.mkdir_same s _ path))
    ]
  ]
