-- ===== src/JsonConfig/Lookup.antt =====
-- What a lookup in the configuration answers (src/JsonConfig.cc).
use lt.Base.{Bool, true, false, List, [], ◌∷◌, Option, none, some, if◌then◌else◌}
use lt.JsonConfig.{Text, Json, Result, text, thrown, equal, JsonParse, new_json_parse}

abbrev pub holds : List Text → Text → Bool
holds [] name = false
holds (n ∷ ns) name = if equal n name then true else holds ns name

module _ (J : Json) where
  open J use {Value, parse, member, is_null, member_names, as_string}

  abbrev pub value_text : Option Value → Result
  value_text none = thrown
  value_text (some v) = elim (as_string v) [ none ↦ thrown | some s ↦ text s ]

  -- What an object has for a key, over the names of its members: nothing, a text or an exception.
  abbrev pub value_in : Value → Option (List Text) → Text → Option Result
  value_in obj none key_name = some thrown
  value_in obj (some names) key_name =
      if holds names key_name then some (value_text (member obj key_name)) else none

  -- What a value that may be missing, null or no object has for a key.
  abbrev pub value_of : Option Value → Text → Option Result
  value_of none key_name = some thrown
  value_of (some obj) key_name =
      if is_null obj then none else value_in obj (member_names obj) key_name

  abbrev pub value_at : Value → Text → Text → Option Result
  value_at root obj_name key_name = value_of (member root obj_name) key_name

  abbrev pub or_default : Option Result → Text → Result
  or_default none defaultval = text defaultval
  or_default (some r) defaultval = r

  -- What `GetVal` asks: the parser of the manager, or a new one.
  abbrev pub parser_for : (Text → Text) → Text → Option (JsonParse J) → JsonParse J
  parser_for read filename none = new_json_parse J read filename
  parser_for read filename (some p) = p
