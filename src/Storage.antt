-- ===== src/Storage.antt =====
-- internal/storage/file_storage.go, over the calls of the file system and of encoding/json. The mutex
-- is held for a whole method. A crash is a call after which every further call fails.
pub mod Atomic
pub mod RoundTrip
use Prim.Native.String.{◌++◌ as append}
use suffren.Base.{Bool, true, false, Option, none, some, String, List, [], if◌then◌else◌}
use suffren.GoMap.{GoMap}
use suffren.Crdt.GCounter.{NodeId, GCounter}
use suffren.Crdt.CounterMap as Counters
use suffren.Crdt.CounterMap.{CounterMap}

-- What `os.ReadFile` gives: the content, an error that is `fs.ErrNotExist`, or another error.
pub data Read (Data : Type 0) : Type 0 where
  content : Data → Read Data
  missing : Read Data
  failed : Read Data

-- The calls, by paths; the second result says whether there was no error. `open_file` has the flags
-- O_WRONLY, O_CREATE and O_TRUNC, and the three calls after it go to the file that it opened.
pub record FileSystem (S Data : Type 0) : Type 0 where
  pub dir : String → String
  pub mkdir_all : S → String → S × Bool
  pub open_file : S → String → S × Bool
  pub write : S → String → Data → S × Bool
  pub sync : S → String → S × Bool
  pub close : S → String → S × Bool
  pub rename : S → String → String → S × Bool
  pub sync_dir : S → String → S
  pub read_file : S → String → Read Data

-- `json.Marshal` of a map, `json.Unmarshal` into a new one, and the test for no bytes at all. Only
-- the exported field `Counters` is in the JSON.
pub record Json (Data : Type 0) : Type 0 where
  pub marshal : CounterMap → Option Data
  pub unmarshal : Data → Option (GoMap String GCounter)
  pub is_empty : Data → Bool

abbrev pub temp_path : String → String
temp_path path = append path ".tmp"

module _ {S Data : Type 0} (fs : FileSystem S Data) (json : Json Data) (path : String) where
  -- `Save` from the back: each stage runs if the calls before it had no error.
  unfoldable pub save_closed : S → S × Bool
  save_closed s =
      let (s1, renamed) = fs.rename s (temp_path path) path in
      if renamed then (fs.sync_dir s1 (fs.dir path), true) else (s1, false)

  unfoldable pub save_synced : S → S × Bool
  unfolding save_closed
  save_synced s =
      let (s1, closed) = fs.close s (temp_path path) in
      if closed then save_closed s1 else (s1, false)

  unfoldable pub save_written : S → S × Bool
  unfolding save_synced
  save_written s =
      let (s1, synced) = fs.sync s (temp_path path) in
      if synced then save_synced s1 else ((fs.close s1 (temp_path path)).0, false)

  unfoldable pub save_opened : S → Data → S × Bool
  unfolding save_written
  save_opened s bytes =
      let (s1, written) = fs.write s (temp_path path) bytes in
      if written then save_written s1 else ((fs.close s1 (temp_path path)).0, false)

  unfoldable pub save_data : S → Data → S × Bool
  unfolding save_opened
  save_data s bytes =
      let (s1, opened) = fs.open_file s (temp_path path) in
      if opened then save_opened s1 bytes else (s1, false)

  unfoldable pub save : S → CounterMap → S × Bool
  unfolding save_data
  save s state =
      let (s1, made) = fs.mkdir_all s (fs.dir path) in
      if made
      then elim (json.marshal state) [ none ↦ (s1, false) | some bytes ↦ save_data s1 bytes ]
      else (s1, false)

  unfoldable pub load_data : Data → List NodeId → Option CounterMap
  unfolding Counters.new
  load_data bytes node_ids =
      if json.is_empty bytes then some (Counters.new node_ids) else elim (json.unmarshal bytes) [
        | none ↦ none
        | some counters ↦ some (record { counters = counters; node_ids = [] })
      ]

  -- `none` is an error.
  unfoldable pub load : S → List NodeId → Option CounterMap
  unfolding load_data Counters.new
  load s node_ids = elim (fs.read_file s path) [
    | missing ↦ some (Counters.new node_ids)
    | failed ↦ none
    | content bytes ↦ load_data bytes node_ids
  ]

-- The state that `engine.New` starts from.
unfoldable pub recover : Option CounterMap → List NodeId → CounterMap
unfolding Counters.new
recover (some state) node_ids = state
recover none node_ids = Counters.new node_ids
