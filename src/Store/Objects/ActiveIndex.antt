-- ===== src/Store/Objects/ActiveIndex.antt =====
-- LoadActiveIndex of s3_store.go: the reads run in parallel, and come in any order.
use durable_wasm.Base.{
  ◌≡◌, ◌∙◌, sym, refl, ap, Bool-cases, inl, inr, Bytes, Option, none, some, List, [], ◌∷◌, map, str,
  has_suffix, if◌then◌else◌,
}
use mathlib.Core.List.{Permᴰ, filter_map, flatten, filter_map-append}
use mathlib.Core.List.Permᴰ
use durable_wasm.Types.{Result, ok}
use durable_wasm.Store.Codec.{Formats, and_then-ok}
use durable_wasm.Store.Objects.{
  Answer, given, refused, ObjectStore, active_keys, listed_keys, add_item, collect, read_objects,
  fetch, load_active_index, read_object,
}

Permᴰ-at : {A : Type 0} {xs ys zs : List A} → xs ≡ ys → Permᴰ ys zs → Permᴰ xs zs
Permᴰ-at same perm = rw same perm

-- A listed object that has a key which ends in "/active.json".
abbrev pub entry_key : Option Bytes → Option Bytes
entry_key none = none
entry_key (some key) = if has_suffix key (str "/active.json") then some key else none

abbrev pub entry_keys : List (Option Bytes) → List Bytes
entry_keys objects = filter_map entry_key objects

active_keys-entry_keys : (objects : List (Option Bytes)) → active_keys objects ≡ entry_keys objects
unfolding active_keys filter_map
active_keys-entry_keys [] = refl
active_keys-entry_keys (none ∷ objects) = active_keys-entry_keys objects
active_keys-entry_keys (some key ∷ objects) =
    elim (Bool-cases (has_suffix key (str "/active.json"))) [
      | inl entry ↦ rw entry (ap (λ keys. key ∷ keys) (active_keys-entry_keys objects))
      | inr other ↦ rw other (active_keys-entry_keys objects)
    ]

-- A listing whose pages all came.
listed_keys-given :
    (pages : List (List (Option Bytes)))
    → listed_keys (map (λ page. given page) pages) ≡ ok (entry_keys (flatten pages))
unfolding listed_keys flatten filter_map
listed_keys-given [] = refl
listed_keys-given (page ∷ pages) =
    rw (listed_keys-given pages, active_keys-entry_keys page)
      (ap (λ keys. ok keys) (sym (filter_map-append entry_key page (flatten pages))))

module _ (O : ObjectStore) (J : Formats) where
  -- An answer that holds an entry.
  abbrev Holds : Answer (Bytes × Bytes) → J.index.Info → Type 0
  Holds (given (info, etag)) item = J.index.decode_info info ≡ some item
  Holds (refused e) item = ⊥

  add_item-ok :
      (o : Option J.index.Info) (rest : Result (List J.index.Info)) (items : List J.index.Info)
      → add_item O J o rest ≡ ok items
      → (item : J.index.Info) × (later : List J.index.Info) × (o ≡ some item)
        × (rest ≡ ok later)
        × (items ≡ item ∷ later)
  unfolding add_item
  add_item-ok none rest items h = absurd (cc h)
  add_item-ok (some item) rest items h =
      let (later, is_ok, same) = and_then-ok rest (λ xs. ok (item ∷ xs)) items h in
      (item, later, refl, is_ok, cc same)

  collect-cons :
      (a : Answer (Bytes × Bytes)) (rest : List (Answer (Bytes × Bytes)))
      (items : List J.index.Info)
      → collect O J (a ∷ rest) ≡ ok items
      → (item : J.index.Info) × (later : List J.index.Info) × Holds a item
        × (collect O J rest ≡ ok later)
        × (items ≡ item ∷ later)
  unfolding collect
  collect-cons (refused e) rest items h = absurd (cc h)
  collect-cons (given (info, etag)) rest items h =
      add_item-ok (J.index.decode_info info) (collect O J rest) items h

  cons-collect :
      (a : Answer (Bytes × Bytes)) (rest : List (Answer (Bytes × Bytes))) (item : J.index.Info)
      (later : List J.index.Info)
      → Holds a item
      → collect O J rest ≡ ok later
      → collect O J (a ∷ rest) ≡ ok (item ∷ later)
  unfolding collect add_item
  cons-collect (refused e) rest item later holds collected = absurd holds
  cons-collect (given (info, etag)) rest item later holds collected = rw (holds, collected) refl

  -- What is collected in another order is the same in another order.
  collect-perm :
      {xs ys : List (Answer (Bytes × Bytes))}
      → Permᴰ xs ys
      → (items : List J.index.Info) → collect O J xs ≡ ok items
      → (other : List J.index.Info) × Permᴰ items other × (collect O J ys ≡ ok other)
  collect-perm Permᴰ.nil items h = (items, Permᴰ.refl items, h)
  collect-perm (Permᴰ.cons {a = a} {b = b} {l₁ = l₁} {l₂ = l₂} same perm) items h =
      let (item, later, holds, collected, shape) = collect-cons a l₁ items h in
      let (other, perm', collected') = collect-perm perm later collected in
      let reordered : Permᴰ items (item ∷ other) = Permᴰ-at shape (Permᴰ.cons refl perm') in
      (item ∷ other, reordered, cons-collect b l₂ item other (rw (sym same) holds) collected')
  collect-perm (Permᴰ.swap {a = a} {b = b} {a' = a'} {b' = b'} {l = l} p q) items h =
      let (first, later, first_holds, collected, shape) = collect-cons a (b ∷ l) items h in
      let (second, rest, second_holds, collected', shape') = collect-cons b l later collected in
      let reordered : Permᴰ items (second ∷ (first ∷ rest)) =
        Permᴰ-at (shape ∙ ap (λ (xs : List J.index.Info). first ∷ xs) shape')
          (Permᴰ.swap refl refl) in
      (
        second ∷ (first ∷ rest),
        reordered,
        cons-collect a' (b' ∷ l) second (first ∷ rest) (rw (sym q) second_holds)
            (cons-collect b' l first rest (rw (sym p) first_holds) collected'),
      )
  collect-perm (Permᴰ.trans p q) items h =
      let (middle, perm, collected) = collect-perm p items h in
      let (other, perm', collected') = collect-perm q middle collected in
      (other, Permᴰ.trans perm perm', collected')

  -- The object under each key can be read, and holds the entry.
  abbrev pub Entries : List Bytes → List J.index.Info → O.State → Type 0
  Entries [] [] s = Unit
  Entries [] (item ∷ items) s = ⊥
  Entries (key ∷ keys) [] s = ⊥
  Entries (key ∷ keys) (item ∷ items) s = Holds (read_object O key s) item × Entries keys items s

  collect-Entries :
      (keys : List Bytes) (items : List J.index.Info) (s : O.State)
      → Entries keys items s
      → collect O J (read_objects O J keys s) ≡ ok items
  unfolding read_objects collect
  collect-Entries [] [] s entries = refl
  collect-Entries [] (item ∷ items) s entries = absurd entries
  collect-Entries (key ∷ keys) [] s entries = absurd entries
  collect-Entries (key ∷ keys) (item ∷ items) s (holds, entries) =
      cons-collect (read_object O key s) (read_objects O J keys s) item items holds
        (collect-Entries keys items s entries)

  -- The text of an index.
  abbrev pub index_text : List J.index.Info → Bytes
  index_text [] = str "[]"
  index_text (item ∷ items) = J.index.encode_index (item ∷ items)

  perm-text :
      (item : J.index.Info) (later items : List J.index.Info)
      → Permᴰ (item ∷ later) items
      → index_text items ≡ J.index.encode_index items
  perm-text item later [] perm = absurd (cc (Permᴰ.length-eq perm))
  perm-text item later (other ∷ items) perm = refl

  fetch-Entries :
      (arrive : List (Answer (Bytes × Bytes)) → List (Answer (Bytes × Bytes))) (keys : List Bytes)
      (items : List J.index.Info) (s : O.State)
      → ((xs : List (Answer (Bytes × Bytes))) → Permᴰ xs (arrive xs))
      → Entries keys items s
      → (found : List J.index.Info) × Permᴰ items found
        × (fetch O J arrive keys s ≡ ok (index_text found))
  unfolding fetch
  fetch-Entries arrive [] [] s order entries = ([], Permᴰ.nil, refl)
  fetch-Entries arrive [] (item ∷ items) s order entries = absurd entries
  fetch-Entries arrive (key ∷ keys) [] s order entries = absurd entries
  fetch-Entries arrive (key ∷ keys) (item ∷ items) s order entries =
      let reads = read_objects O J (key ∷ keys) s in
      let (found, perm, collected) =
        collect-perm (order reads) (item ∷ items)
          (collect-Entries (key ∷ keys) (item ∷ items) s entries) in
      (found, perm, rw collected (ap (λ t. ok t) (sym (perm-text item items found perm))))

  -- LoadActiveIndex gives the text of an index with the entries of all objects that the pages of the
  -- listing name and whose keys end in "/active.json", each as often as it is listed, in whatever
  -- order the parallel reads come: if every page of the listing comes, and every one of these
  -- objects can be read and holds an entry.
  pub load_active_index-Entries :
      (arrive : List (Answer (Bytes × Bytes)) → List (Answer (Bytes × Bytes)))
      (pages : List (List (Option Bytes))) (items : List J.index.Info) (s : O.State)
      → ((xs : List (Answer (Bytes × Bytes))) → Permᴰ xs (arrive xs))
      → O.list_pages (str "instances/") s ≡ map (λ page. given page) pages
      → Entries (entry_keys (flatten pages)) items s
      → (found : List J.index.Info) × Permᴰ items found
        × (load_active_index O J arrive s ≡ ok (index_text found))
  unfolding load_active_index
  load_active_index-Entries arrive pages items s order listed entries =
      rw (ap listed_keys listed ∙ listed_keys-given pages)
        (fetch-Entries arrive (entry_keys (flatten pages)) items s order entries)
