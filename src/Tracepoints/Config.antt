-- ===== src/Tracepoints/Config.antt =====
-- The messages KeyValue and TracePointConfig of pkg/deeppb and `ResourceMatches` of
-- modules/tracepoint/store/encoding/v1/tpBlock.go. Metrics, which none of this code reads, are
-- carried as bytes.
use deep.Prelude.{
  ℕ, Bytes, bytes_eq, bytes_beq, Bool, true, false, List, [], ◌∷◌, Option, none, some, Map, get,
  put, length, nat_beq, if◌then◌else◌,
}

-- A value of any other kind than text.
pub data AnyValue : Type 0 where
  string_value : Bytes → AnyValue
  other_value : AnyValue

unfoldable pub get_string_value : AnyValue → Bytes
get_string_value (string_value s) = s
get_string_value other_value = []

pub record KeyValue : Type 0 where
  pub key : Bytes
  pub value : AnyValue

pub record TracePointConfig : Type 0 where
  pub id : Bytes
  pub path : Bytes
  pub line_number : ℕ
  pub args : Map Bytes Bytes
  pub watches : List Bytes
  pub targeting : List KeyValue
  pub metrics : List Bytes

-- The map that the first loop of `ResourceMatches` fills.
unfoldable pub attributes_from : Map Bytes Bytes → List KeyValue → Map Bytes Bytes
unfolding get_string_value
attributes_from m [] = m
attributes_from m (a ∷ resource) = attributes_from (put a.key (get_string_value a.value) m) resource

abbrev pub has_value : Option Bytes → Bytes → Bool
has_value none expected = false
has_value (some val) expected = bytes_beq val expected

-- Its second loop.
unfoldable pub all_targeted : Map Bytes Bytes → List KeyValue → Bool
unfolding get_string_value
all_targeted m [] = true
all_targeted m (t ∷ targeting) =
    let rest = all_targeted m targeting in
    if has_value (get t.key m) (get_string_value t.value) then rest else false

unfoldable pub resource_matches : TracePointConfig → List KeyValue → Bool
unfolding attributes_from all_targeted
resource_matches tp resource =
    if nat_beq (length resource) 0
    then true
    else (if nat_beq (length tp.targeting) 0
        then true
        else all_targeted (attributes_from [] resource) tp.targeting)
