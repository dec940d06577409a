-- ===== src/Parser/Types.antt =====
-- The warning for unknown type names.
use th_lang.Base.{String, ◌≡◌, some, arith, eq_iff, ==_iff}
use th_lang.Base.Dict.{lookup}
use th_lang.TypeSystem.{Ptr, TypeSystem, get_type}
use th_lang.TypeSystem.Laws.{IsNamed, get_type-injective}
use th_lang.Parser.Actions.{ParseState, type_id_action}

get_type_of_found :
    (ts : TypeSystem) (p : Ptr) → lookup "空类型" ts.type_map ≡ some p → get_type "空类型" ts ≡ p
unfolding get_type
get_type_of_found ts p found = rw (found, get_type)

-- In a table whose entries are named after their objects and that has the entry "空类型", the
-- action for a type name answers `get_type` of it and never warns, whatever the name: an unknown
-- one gets the static object, whose pointer is not that of the entry it is compared with.
pub type_id_action-silent :
    (s : String) (st : ParseState) (p : Ptr)
    → IsNamed st.types
    → lookup "空类型" st.types.type_map ≡ some p
    → type_id_action s st ≡ some (get_type s st.types, st)
unfolding type_id_action
type_id_action-silent s st p v found = ground (
  arith,
  get_type_of_found st.types p found,
  get_type-injective st.types s "空类型" p v found,
  eq_iff s "空类型",
  ==_iff (get_type s st.types) (get_type "空类型" st.types),
)
