-- ===== src/Storage/RoundTrip.antt =====
-- What `Load` reads after `Save`.
use suffren.Base.{
  ◌≡◌, ◌≢◌, refl, ◌∙◌, ◌⊎◌, inl, inr, Bool, true, false, Option, some, String, if◌then◌else◌, List,
  [],
}
use suffren.GoMap.{GoMap}
use suffren.Crdt.GCounter.{NodeId, GCounter}
use suffren.Crdt.CounterMap.{CounterMap}
use suffren.Crdt.CounterMap.Order.{Below}
use suffren.Storage.{content, failed, FileSystem, Json, load_data, load, save}
use suffren.Storage.Atomic.{IsFileSystem, save-Replaces}

if-then {ℓ} : {A : Type ℓ} (b : Bool) (x y : A) → b ≡ true → (if b then x else y) ≡ x
if-then b x y e = rw e refl

-- What is relied on: a read that has no error gives what the file holds.
pub record IsReader {S Data : Type 0} (fs : FileSystem S Data) (files : S → String → Option Data)
    : Type 0 where
  pub present :
      (s : S) (p : String) (bytes : Data)
      → files s p ≡ some bytes
      → (fs.read_file s p ≡ content bytes) ⊎ (fs.read_file s p ≡ failed)

-- The JSON of a map is not empty, and decodes into maps of the same entries, in some order.
pub record IsJson {Data : Type 0} (json : Json Data) : Type 0 where
  pub encoded : (m : CounterMap) → (bytes : Data) × (json.marshal m ≡ some bytes)
  pub nonempty :
      (m : CounterMap) (bytes : Data) → json.marshal m ≡ some bytes → json.is_empty bytes ≡ false
  pub decoded :
      (m : CounterMap) (bytes : Data)
      → json.marshal m ≡ some bytes
      → (c : GoMap String GCounter) × (json.unmarshal bytes ≡ some c)
        × ((ids : List NodeId)
            → Below (record { counters = c; node_ids = ids }) m
              × Below m (record { counters = c; node_ids = ids }))

module _ {S Data : Type 0} (fs : FileSystem S Data) (json : Json Data) (path : String)
    (empty : Data) (files : S → String → Option Data) (laws : IsFileSystem fs empty files)
    (reader : IsReader fs files) (codec : IsJson json) where
  -- A state that `Save` has saved is what `Load` then gives, if its read does not fail: the same
  -- counts under the same keys and nodes. The list of the nodes is lost, whatever `Load` is given.
  pub save-load :
      (s : S) (state : CounterMap) (node_ids : List NodeId)
      → (save fs json path s state).1 ≡ true
      → fs.read_file (save fs json path s state).0 path ≢ failed
      → (m : CounterMap) × (load fs json path (save fs json path s state).0 node_ids ≡ some m)
        × Below m state
        × Below state m
        × (m.node_ids ≡ [])
  unfolding load
  save-load s state node_ids done readable =
      let (bytes, e) = codec.encoded state in
      let stored : files (save fs json path s state).0 path ≡ some bytes =
        save-Replaces fs json path empty files laws s state ∙ if-then _ _ _ done ∙ e in
      let (c, d, same) = codec.decoded state bytes e in
      (
        record { counters = c; node_ids = [] },
        elim (reader.present (save fs json path s state).0 path bytes stored) [
          | inl r ↦ rw (r, load, load_data, codec.nonempty state bytes e, d) refl
          | inr r ↦ absurd (readable r)
        ],
        (same []).0,
        (same []).1,
        refl,
      )
