-- ===== src/Config/Volumes.antt =====
-- src/config/volumes.rs: what is remembered of the volumes that the layers of a target declared, and
-- the reading of it. The TOML parser is a parameter; of its values the model keeps what the reading
-- tells apart. A set of names is a list that may repeat one.
pub mod Reading
pub mod Live
use vivarium.Prelude.{
  ℕ, Bool, true, false, ◌&&◌, ◌||◌, not, Option, none, some, List, [], ◌∷◌, ◌++◌, Bytes, codes,
  bytes_eq, if◌then◌else◌, map, all, Result, ok, err, ◌>>=◌, or_fail,
}
use vivarium.Net.Text.{is_empty}
use vivarium.Launch.Paths.{parts_eq}

pub record DeclaredVolume : Type 0 where
  pub name : Bytes
  pub mount : Bytes
  pub declared_by : Bytes
  pub kind : Bytes
  pub size_gib : Option ℕ

pub record Composition : Type 0 where
  pub image : Bytes
  pub pieces : List Bytes
  pub extends : Option Bytes

pub record VolumeRecord : Type 0 where
  pub composition : Composition
  pub volumes : List DeclaredVolume

-- The fields of a manifest that the record is compared with.
pub record Manifest : Type 0 where
  pub image : Bytes
  pub pieces : List Bytes
  pub extends : Option Bytes
  pub volume_names : List Bytes

-- `Composition::of`.
unfoldable pub composition_of : Manifest → Composition
composition_of manifest = record {
  image = manifest.image;
  pieces = manifest.pieces;
  extends = manifest.extends;
}

abbrev pub option_eq : Option Bytes → Option Bytes → Bool
option_eq none none = true
option_eq (some a) (some b) = bytes_eq a b
option_eq _ _ = false

unfoldable pub composition_eq : Composition → Composition → Bool
composition_eq a b =
    bytes_eq a.image b.image && parts_eq a.pieces b.pieces && option_eq a.extends b.extends

abbrev pub manifest_kind : Bytes
manifest_kind = codes "manifest"

unfoldable pub inherited : List DeclaredVolume → List Bytes
unfolding bytes_eq
inherited [] = []
inherited (volume ∷ more) =
    let rest = inherited more in
    if not (bytes_eq volume.kind manifest_kind) then volume.name ∷ rest else rest

-- `Record::live`.
unfoldable pub live : VolumeRecord → Manifest → List Bytes
unfolding inherited composition_eq composition_of
live remembered manifest =
    manifest.volume_names
    ++ (if composition_eq remembered.composition (composition_of manifest)
        then inherited remembered.volumes
        else [])

-- `Record::find`.
unfoldable pub find : List DeclaredVolume → Bytes → Option DeclaredVolume
unfolding bytes_eq
find [] name = none
find (volume ∷ more) name =
    let rest = find more name in if bytes_eq volume.name name then some volume else rest

-- A value in a table of the `volumes`, an element of an array, and a value of the root.
pub data Cell : Type 0 where
  text_cell : Bytes → Cell
  integer_cell : Option ℕ → Cell
  other_cell : Cell

pub data Item : Type 0 where
  text_item : Bytes → Item
  table_item : List (Bytes × Cell) → Item
  other_item : Item

pub data Value : Type 0 where
  text_value : Bytes → Value
  array_value : List Item → Value
  other_value : Value

pub data RecordFault : Type 0 where
  syntax malformed_entry missing_key : RecordFault
  wrong_type : (key : Bytes) → RecordFault

unfoldable pub get : {A : Type 0} → List (Bytes × A) → Bytes → Option A
unfolding bytes_eq
get [] key = none
get ((k, value) ∷ more) key = let rest = get more key in if bytes_eq k key then some value else rest

abbrev pub cell_text : Cell → Option Bytes
cell_text (text_cell text) = some text
cell_text (integer_cell number) = none
cell_text other_cell = none

abbrev pub value_text : Value → Option Bytes
value_text (text_value text) = some text
value_text (array_value items) = none
value_text other_value = none

-- The closure `string`, of what a key holds.
abbrev pub string_of :
    {A : Type 0} → (A → Option Bytes) → Bytes → Option A → Result RecordFault (Option Bytes)
string_of text key none = ok none
string_of text key (some held) = or_some (text held)
  where
    or_some : Option Bytes → Result RecordFault (Option Bytes)
    or_some none = err (wrong_type key)
    or_some (some value) = ok (some value)

abbrev pub item_texts : Bytes → List Item → Result RecordFault (List Bytes)
item_texts key [] = ok []
item_texts key (text_item text ∷ more) = do texts ← item_texts key more; ok (text ∷ texts)
item_texts key (table_item cells ∷ more) = err (wrong_type key)
item_texts key (other_item ∷ more) = err (wrong_type key)

-- The closure `strings`.
abbrev pub strings_of : Bytes → Option Value → Result RecordFault (List Bytes)
strings_of key none = ok []
strings_of key (some (array_value items)) = item_texts key items
strings_of key (some (text_value text)) = err (wrong_type key)
strings_of key (some other_value) = err (wrong_type key)

abbrev pub size_of : Option Cell → Result RecordFault (Option ℕ)
size_of none = ok none
size_of (some (integer_cell (some number))) = ok (some number)
size_of (some (integer_cell none)) = err (wrong_type (codes "size_gib"))
size_of (some (text_cell text)) = err (wrong_type (codes "size_gib"))
size_of (some other_cell) = err (wrong_type (codes "size_gib"))

abbrev pub all_given :
    (name mount declared_by kind : Option Bytes)
    → Result RecordFault (Option ℕ)
    → Result RecordFault DeclaredVolume
all_given (some name) (some mount) (some declared_by) (some kind) size = do
  size_gib ← size
  ok (record {
    name = name;
    mount = mount;
    declared_by = declared_by;
    kind = kind;
    size_gib = size_gib;
  })
all_given _ _ _ _ size = err missing_key

abbrev pub parse_volume : Item → Result RecordFault DeclaredVolume
parse_volume (table_item table) = do
  name ← string_of cell_text (codes "name") (get table (codes "name"))
  mount ← string_of cell_text (codes "mount") (get table (codes "mount"))
  declared_by ← string_of cell_text (codes "declared_by") (get table (codes "declared_by"))
  kind ← string_of cell_text (codes "kind") (get table (codes "kind"))
  all_given name mount declared_by kind (size_of (get table (codes "size_gib")))
parse_volume (text_item text) = err malformed_entry
parse_volume other_item = err malformed_entry

abbrev pub parse_volumes : List Item → Result RecordFault (List DeclaredVolume)
parse_volumes [] = ok []
parse_volumes (entry ∷ more) = do
  volume ← parse_volume entry
  volumes ← parse_volumes more
  ok (volume ∷ volumes)

-- `if let Some(DeValue::Array(entries))`: what is no array is passed over.
abbrev pub volumes_of : Option Value → Result RecordFault (List DeclaredVolume)
volumes_of (some (array_value entries)) = parse_volumes entries
volumes_of (some (text_value text)) = ok []
volumes_of (some other_value) = ok []
volumes_of none = ok []

abbrev pub or_default : Option Bytes → Bytes
or_default none = []
or_default (some text) = text

abbrev pub nonempty : Option Bytes → Option Bytes
nonempty none = none
nonempty (some text) = if is_empty text then none else some text

unfoldable pub parse_composition : List (Bytes × Value) → Result RecordFault Composition
unfolding get
parse_composition root = do
  image ← string_of value_text (codes "image") (get root (codes "image"))
  pieces ← strings_of (codes "pieces") (get root (codes "pieces"))
  extends ← string_of value_text (codes "extends") (get root (codes "extends"))
  ok (record { image = or_default image; pieces = pieces; extends = nonempty extends })

unfoldable pub parse_root : List (Bytes × Value) → Result RecordFault VolumeRecord
unfolding parse_composition get
parse_root root = do
  composition ← parse_composition root
  volumes ← volumes_of (get root (codes "volumes"))
  ok (record { composition = composition; volumes = volumes })

abbrev pub default_record : VolumeRecord
default_record = record {
  composition = record { image = []; pieces = []; extends = none };
  volumes = [];
}

-- `parse`: `blank` is whether a text is white space only, `toml` the parser.
unfoldable pub parse_record :
    (Bytes → Bool)
    → (Bytes → Option (List (Bytes × Value)))
    → Bytes
    → Result RecordFault VolumeRecord
unfolding parse_root
parse_record blank toml source =
    if blank source
    then ok default_record
    else do root ← or_fail (toml source) syntax; parse_root root
