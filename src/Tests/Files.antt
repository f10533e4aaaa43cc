-- ===== src/Tests/Files.antt =====
-- The results about the storage, on a disk that is a function from paths to contents.
use suffren.Base.{
  if◌then◌else◌, ◌≡◌, ◌≢◌, some_unique, refl, sym, ap, ◌⊎◌, inl, true, false, Option, none, some,
  String, [], ite, if_pos, if_neg, false≢true, string_key, string_discrete,
}
use suffren.GoMap.{GoMap}
use suffren.Crdt.GCounter.{GCounter}
use suffren.Crdt.CounterMap.{CounterMap}
use suffren.Crdt.CounterMap.Order.{Below, Below-refl}
use suffren.Storage.{Read, content, missing, failed, FileSystem, Json, load, save}
use suffren.Storage.Atomic.{IsFileSystem, save-Replaces}
use suffren.Storage.RoundTrip.{IsReader, IsJson, save-load}
use suffren.Tests.Data.{five, nodes}

-- The bytes of a file: the counters of a map, or none.
abbrev Bytes : Type 0
Bytes = Option (GoMap String GCounter)

abbrev Disk : Type 0
Disk = String → Option Bytes

abbrev set : Disk → String → Option Bytes → Disk
set disk p c q = ite (string_key.dec p q) c (disk q)

abbrev read : Option Bytes → Read Bytes
read none = missing
read (some c) = content c

-- Every call succeeds.
abbrev fs : FileSystem Disk Bytes
fs = record {
  dir = λ p. "data";
  mkdir_all = λ s p. (s, true);
  open_file = λ s p. (set s p (some none), true);
  write = λ s p c. (set s p (some c), true);
  sync = λ s p. (s, true);
  close = λ s p. (s, true);
  rename = λ s p q. (set (set s p none) q (s p), true);
  sync_dir = λ s p. s;
  read_file = λ s p. read (s p);
}

abbrev json : Json Bytes
json = record {
  marshal = λ m. some (some m.counters);
  unmarshal = λ c. c;
  is_empty = λ c. elim c [ none ↦ true | some m ↦ false ];
}

set_at : (s : Disk) (p : String) (c : Option Bytes) → set s p c p ≡ c
set_at s p c = if_pos (string_key.dec p p) refl c (s p)

set_other : (s : Disk) (p q : String) (c : Option Bytes) → p ≢ q → set s p c q ≡ s q
set_other s p q c ne = if_neg (string_key.dec p q) ne c (s q)

abbrev files : Disk → String → Option Bytes
files s p = s p

fs-IsFileSystem : IsFileSystem fs none files
fs-IsFileSystem = record {
  mkdir_same = λ s d q. refl;
  open_other = λ s p q ne. set_other s p q (some none) ne;
  open_empty = λ s p h. set_at s p (some none);
  write_other = λ s p q d ne. set_other s p q (some d) ne;
  write_whole = λ s p d e h. set_at s p (some d);
  sync_same = λ s p q. refl;
  close_same = λ s p q. refl;
  rename_done = λ s p q h. set_at (set s p none) q (s p);
  rename_undone = λ s p q h. absurd (false≢true (sym h));
  sync_dir_same = λ s d q. refl;
}

read_present :
    (c : Option Bytes) (b : Bytes) → c ≡ some b → (read c ≡ content b) ⊎ (read c ≡ failed)
read_present none b e = absurd (no_value b e)
  where
    no_value : (b : Bytes) → Path (Option Bytes) none (some b) → ⊥
    no_value b e = cc
read_present (some c) b e = inl (ap read e)

fs-IsReader : IsReader fs files
fs-IsReader = record { present = λ s p b e. read_present (s p) b e }

json-IsJson : IsJson json
json-IsJson = record {
  encoded = λ m. (some m.counters, refl);
  nonempty = λ m b e. ap (λ c. elim c [ none ↦ true | some b ↦ json.is_empty b ]) (sym e);
  decoded = λ m b e. (
    m.counters,
    sym (some_unique (some (some m.counters)) (some m.counters) b refl e),
    λ ids. (Below-refl m, Below-refl m),
  );
}

-- The disk holds an old, empty file at the path.
abbrev disk : Disk
disk = set (λ p. none) "s.json" (some none)

save-Replaces_example :
    files (save fs json "s.json" disk five).0 "s.json"
    ≡ (if (save fs json "s.json" disk five).1 then json.marshal five else files disk "s.json")
save-Replaces_example = save-Replaces fs json "s.json" none files fs-IsFileSystem disk five

saved : (save fs json "s.json" disk five).1 ≡ true
unfolding save
saved = refl

readable : fs.read_file (save fs json "s.json" disk five).0 "s.json" ≢ failed
unfolding save string_discrete
readable e = cc

save-load_example :
    (m : CounterMap) × (load fs json "s.json" (save fs json "s.json" disk five).0 nodes ≡ some m)
    × Below m five
    × Below five m
    × (m.node_ids ≡ [])
save-load_example =
    save-load fs json "s.json" none files fs-IsFileSystem fs-IsReader json-IsJson disk five nodes
      saved readable
