-- ===== src/Engine/DataModel.antt =====
-- serpentine/src/engine/data_model.rs: data and its types, the push-only store, the graph.
pub mod Cache
use serpentine.Prelude.{
  String, ◌≡◌, refl, ◌↔◌, arith, nat_beq, nat_beq_iff, Eq, ℕ, Bool, true, false, Option, none, some,
  List, [], ◌∷◌, ◌++◌, length,
}
use serpentine.Prelude.Text.{Text}
use serpentine.Snek.Span.{Span}
use serpentine.Engine.Container.{ContainerState, ServiceState}

-- An i128: `negsuc n` is -(n + 1).
pub data ℤ : Type 0 where
  pos : ℕ → ℤ
  negsuc : ℕ → ℤ

pub data DataType : Type 0 where
  int string container service file_system : DataType

-- A file system is its provider, a trait object of type `P`, and the node that produced it. Its
-- memoised hash is a function of the provider and is not modelled.
pub record FileSystem (P : Type 0) : Type 0 where
  pub provider : P
  pub producer : Option Span

pub data Data (P : Type 0) : Type 0 where
  int : ℤ → Data P
  string : Text → Data P
  container : ContainerState → Data P
  service : ServiceState → Data P
  file_system : FileSystem P → Data P

pub data CacheableData : Type 0 where
  int : ℤ → CacheableData
  string : Text → CacheableData
  container : ContainerState → CacheableData
  service : ServiceState → CacheableData

module _ {P : Type 0} where
  unfoldable pub type_ : Data P → DataType
  type_ (int _) = DataType.int
  type_ (string _) = DataType.string
  type_ (container _) = DataType.container
  type_ (service _) = DataType.service
  type_ (file_system _) = DataType.file_system

  unfoldable pub cacheable : Data P → Option CacheableData
  cacheable (int n) = some (int n)
  cacheable (string s) = some (string s)
  cacheable (container c) = some (container c)
  cacheable (service s) = some (service s)
  cacheable (file_system _) = none

  unfoldable pub from_cacheable : CacheableData → Data P
  from_cacheable (int n) = int n
  from_cacheable (string s) = string s
  from_cacheable (container c) = container c
  from_cacheable (service s) = service s

  -- The first producer stays.
  unfoldable pub set_producer : Span → Data P → Data P
  set_producer span (file_system fs) =
      file_system (elim fs.producer [ none ↦ record fs { producer = some span } | some _ ↦ fs ])
  set_producer span d = d

unfoldable pub is_cacheable : DataType → Bool
is_cacheable DataType.file_system = false
is_cacheable _ = true

-- `DataType::describe`
abbrev pub describe : DataType → String
describe DataType.int = "integer"
describe DataType.string = "string"
describe DataType.container = "container"
describe DataType.service = "service"
describe DataType.file_system = "file/folder"

-- The discriminant `self as u8`.
abbrev pub type_index : DataType → ℕ
type_index DataType.int = 0
type_index DataType.string = 1
type_index DataType.container = 2
type_index DataType.service = 3
type_index DataType.file_system = 4

pub type_beq_iff : (s t : DataType) → (nat_beq (type_index s) (type_index t) ≡ true) ↔ (s ≡ t)
type_beq_iff s t = (type_index_inj s t, λ p. rw p ((nat_beq_iff _ _).1 refl))
  where
    type_index_inj : (s t : DataType) → nat_beq (type_index s) (type_index t) ≡ true → s ≡ t
    type_index_inj s t h = ground arith

instance abbrev pub type_eq : Eq DataType
type_eq = record { is_eq = λ s t. nat_beq (type_index s) (type_index t); is_eq_iff = type_beq_iff }

module _ {ℓ} {T : Type ℓ} where
  -- `Store::push` returns the id, which is the item's index.
  abbrev pub push : List T → T → List T × ℕ
  push items item = (items ++ item ∷ [], length items)

pub record Node : Type 0 where
  pub kind : ℕ
  pub inputs : List ℕ
  pub phantom_inputs : List ℕ

pub record NodeMetadata : Type 0 where
  pub location : Span
  pub stack_trace : List Span

abbrev pub Graph : Type 0
Graph = List (Node × NodeMetadata)
