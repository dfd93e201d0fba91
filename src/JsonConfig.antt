-- ===== src/JsonConfig.antt =====
-- src/JsonConfig.cc and include/JsonConfig.h: values of a configuration by file, object and key. Texts are
-- lists of numbers. The JSON library is the record `Json`.
pub mod Lookup
pub mod Tests
use lt.Base.{ℕ, ◌≡◌, ◌==◌, Bool, true, false, not, List, [], ◌∷◌, Option, none, some, if◌then◌else◌}

abbrev pub Text : Type 0
Text = List ℕ

-- What the parser uses of jsoncpp: `parse` on the content of a file, with the value that `m_root` has
-- after it; the member of a value, null where there is none; `isNull`; the names of the members; and
-- `asString`. `none` is an exception: of `operator[]` and `getMemberNames` for a value that is
-- neither an object nor null, and of `asString` for one that has no text.
pub record Json : Type 1 where
  pub Value : Type 0
  pub parse : Text → Bool × Value
  pub member : Value → Text → Option Value
  pub is_null : Value → Bool
  pub member_names : Value → Option (List Text)
  pub as_string : Value → Option Text

-- A call of `JsonGetVal` ends with a text, or with an exception of jsoncpp.
pub data Result : Type 0 where
  text : Text → Result
  thrown : Result

-- `*it == KeyName`.
unfoldable pub equal : Text → Text → Bool
equal [] [] = true
equal [] (d ∷ ds) = false
equal (c ∷ cs) [] = false
equal (c ∷ cs) (d ∷ ds) = let rest = equal cs ds in if c == d then rest else false

module _ (J : Json) where
  open J use {Value, parse, member, is_null, member_names, as_string}

  -- `m_openerr` is true if the file was parsed.
  pub record JsonParse : Type 0 where
    pub root : Value
    pub filename : Text
    pub openerr : Bool

  -- `JsonParse::JsonParse`; the content of a file that cannot be opened is empty.
  unfoldable pub new_json_parse : (Text → Text) → Text → JsonParse
  new_json_parse read filename =
      let r = parse (read filename) in record { root = r.1; filename = filename; openerr = r.0 }

  -- `JsonParse::OpenFile`.
  unfoldable pub open_file : JsonParse → Bool
  open_file p = p.openerr

  abbrev as_result : Option Text → Result
  as_result none = thrown
  as_result (some s) = text s

  -- `Obj[KeyName].asString()`.
  abbrev text_of : Option Value → Result
  text_of none = thrown
  text_of (some v) = as_result (as_string v)

  -- The loop of `JsonGetVal` over the names of the members.
  unfoldable pub find_member : Value → List Text → Text → Text → Result
  unfolding equal
  find_member obj [] key_name defaultval = text defaultval
  find_member obj (name ∷ names) key_name defaultval =
      let rest = find_member obj names key_name defaultval in
      if equal name key_name then text_of (member obj key_name) else rest

  -- `JsonGetVal` once the names of the members are asked for, and once the object is.
  unfoldable pub of_members : Value → Option (List Text) → Text → Text → Result
  unfolding find_member
  of_members obj none key_name defaultval = thrown
  of_members obj (some names) key_name defaultval = find_member obj names key_name defaultval

  unfoldable pub of_object : Option Value → Text → Text → Result
  unfolding of_members
  of_object none key_name defaultval = thrown
  of_object (some obj) key_name defaultval =
      if is_null obj then text defaultval else of_members obj (member_names obj) key_name defaultval

  -- `JsonParse::JsonGetVal`; `m_root[ObjName]` adds a null member where there is none, which no call
  -- tells from a missing one.
  unfoldable pub json_get_val : JsonParse → Text → Text → Text → Result
  unfolding of_object
  json_get_val p obj_name key_name defaultval =
      if p.openerr then of_object (member p.root obj_name) key_name defaultval else text defaultval

  -- `m_configers`, in the order of the files.
  abbrev pub JsonManger : Type 0
  JsonManger = List (Text × JsonParse)

  unfoldable pub find : Text → JsonManger → Option JsonParse
  unfolding equal
  find filename [] = none
  find filename ((name, p) ∷ rest) =
      let later = find filename rest in if equal name filename then some p else later

  -- `JsonManger::GetVal`. A file that is not in `m_configers` is read, and not put there.
  unfoldable pub get_val : (Text → Text) → Text → Text → Text → Text → JsonManger → Result
  unfolding find new_json_parse open_file json_get_val
  get_val read filename obj_name key_name defaultval m =
      let fresh = new_json_parse read filename in
      elim (find filename m) [
        | none ↦
            if not (open_file fresh)
            then text defaultval
            else json_get_val fresh obj_name key_name defaultval
        | some p ↦ json_get_val p obj_name key_name defaultval
      ]
