-- ===== src/Store/Memory/ActiveIndex.antt =====
-- UpdateActiveIndex of memory_store.go, and the same loop of fs_store.go: the entries of each instance
-- before and after.
use durable_wasm.Base.{
  ◌≡◌, ◌∙◌, ap, refl, arith, Bool, true, false, Bytes, Option, none, some, List, [], ◌∷◌, ◌==◌,
  ==-refl, ==-eq, bytes_eq, if◌then◌else◌,
}
use durable_wasm.Store.Memory.{IndexJson, is_named, next_index}

module _ (J : IndexJson) where
  -- The entries of an instance.
  unfoldable pub entries_of : Bytes → List J.Info → List J.Info
  entries_of name [] = []
  entries_of name (entry ∷ index) =
      let rest = entries_of name index in
      if is_named (J.instance_id entry) name then entry ∷ rest else rest

  -- An entry of one instance is no entry of another.
  other_name :
      (o : Option Bytes) (id name : Bytes)
      → is_named o id ≡ true
      → (id == name) ≡ false
      → is_named o name ≡ false
  other_name none id name same other = absurd (cc same)
  other_name (some own) id name same other =
      ap (λ (x : Bytes). x == name) (==-eq own id same) ∙ other

  -- The update of one instance keeps the entries of every other.
  entries_of-next_index :
      (id name : Bytes) (new_info : J.Info) (completed updated : Bool) (index : List J.Info)
      → J.instance_id new_info ≡ some id
      → (id == name) ≡ false
      → entries_of name (next_index J id new_info completed updated index) ≡ entries_of name index
  unfolding entries_of next_index
  entries_of-next_index id name new_info completed updated [] own other = ground (arith, own)
  entries_of-next_index id name new_info completed updated (entry ∷ index) own other = ground (
    arith,
    own,
    other_name (J.instance_id entry) id name,
    entries_of-next_index id name new_info completed true index own other,
    entries_of-next_index id name new_info completed updated index own other,
  )

  -- A completed instance is gone from the index.
  entries_of-completed :
      (id : Bytes) (new_info : J.Info) (updated : Bool) (index : List J.Info)
      → entries_of id (next_index J id new_info true updated index) ≡ []
  unfolding entries_of next_index
  entries_of-completed id new_info updated [] = ground arith
  entries_of-completed id new_info updated (entry ∷ index) = ground (
    arith,
    entries_of-completed id new_info updated index,
    entries_of-completed id new_info true index,
  )

  abbrev all_new : J.Info → List J.Info → List J.Info
  all_new new_info [] = []
  all_new new_info (entry ∷ index) = new_info ∷ all_new new_info index

  -- An instance that runs has its new entry in the place of each entry it had, and one if it had none.
  abbrev pub renewed : J.Info → List J.Info → List J.Info
  renewed new_info [] = new_info ∷ []
  renewed new_info (entry ∷ index) = new_info ∷ all_new new_info index

  own_name : (o : Option Bytes) (id : Bytes) → o ≡ some id → is_named o id ≡ true
  own_name o id own = ap (λ (x : Option Bytes). is_named x id) own ∙ ==-refl id

  entries_of-updated :
      (id : Bytes) (new_info : J.Info) (index : List J.Info)
      → is_named (J.instance_id new_info) id ≡ true
      → entries_of id (next_index J id new_info false true index)
        ≡ all_new new_info (entries_of id index)
  unfolding entries_of next_index
  entries_of-updated id new_info [] own = refl
  entries_of-updated id new_info (entry ∷ index) own =
      ground (arith, own, entries_of-updated id new_info index own)

  entries_of-running :
      (id : Bytes) (new_info : J.Info) (index : List J.Info)
      → is_named (J.instance_id new_info) id ≡ true
      → entries_of id (next_index J id new_info false false index)
        ≡ renewed new_info (entries_of id index)
  unfolding entries_of next_index
  entries_of-running id new_info [] own = ground (arith, own)
  entries_of-running id new_info (entry ∷ index) own = ground (
    arith,
    own,
    entries_of-updated id new_info index own,
    entries_of-running id new_info index own,
  )

  -- The loop of UpdateActiveIndex, with new information that names the instance: it keeps the
  -- entries of every other instance in their order; a completed instance has no entry afterwards;
  -- one that runs has the new entry in the place of each entry it had, and one if it had none.
  pub next_index_lem :
      (id : Bytes) (new_info : J.Info) (index : List J.Info)
      → J.instance_id new_info ≡ some id
      → ((name : Bytes) (completed : Bool)
          → (id == name) ≡ false
          → entries_of name (next_index J id new_info completed false index)
            ≡ entries_of name index)
        × (entries_of id (next_index J id new_info true false index) ≡ [])
        × (entries_of id (next_index J id new_info false false index)
            ≡ renewed new_info (entries_of id index))
  next_index_lem id new_info index own = (
    (λ name completed other.
        entries_of-next_index id name new_info completed false index own other),
    entries_of-completed id new_info false index,
    entries_of-running id new_info index (own_name (J.instance_id new_info) id own),
  )
