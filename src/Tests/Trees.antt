-- ===== src/Tests/Trees.antt =====
-- A concrete tree for the test data: the writes in order, the newest first.
use ondris.Prelude.{
  ◌≡◌, ◌≢◌, Option, none, some, List, [], ◌∷◌, Bytes, bytes_eq, bytes_eq_refl, bytes_eq_sound,
  Bool-cases, inl, inr, if◌then◌else◌,
}
use ondris.State.{Sled, SledLaws}

-- Each write of a key, with `none` for a removal.
abbrev pub Writes : Type 0
Writes = List (Bytes × Option Bytes)

abbrev read : Writes → Bytes → Option Bytes
read [] k = none
read ((j, v) ∷ rest) k = if bytes_eq j k then v else read rest k

abbrev pub present : Writes → List Bytes
present [] = []
present ((j, none) ∷ rest) = present rest
present ((j, some v) ∷ rest) = v ∷ present rest

abbrev pub sled : Sled Writes
sled = record {
  get = read;
  insert = λ t k v. (k, some v) ∷ t;
  remove = λ t k. (k, none) ∷ t;
  values = present;
}

read_self : (t : Writes) (k : Bytes) (v : Option Bytes) → read ((k, v) ∷ t) k ≡ v
read_self t k v = rw (bytes_eq_refl k)

read_ne : (t : Writes) (k j : Bytes) (v : Option Bytes) → k ≢ j → read ((k, v) ∷ t) j ≡ read t j
read_ne t k j v ne = elim (Bool-cases (bytes_eq k j)) [
  | inl same ↦ absurd (ne (bytes_eq_sound k j same))
  | inr differ ↦ rw differ
]

pub sled-SledLaws : SledLaws sled
sled-SledLaws = record {
  get-insert_self = λ t k v. read_self t k (some v);
  get-insert_ne = λ t k v j ne. read_ne t k j (some v) ne;
  get-remove_self = λ t k. read_self t k none;
  get-remove_ne = λ t k j ne. read_ne t k j none ne;
}
