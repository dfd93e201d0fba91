-- ===== src/JsonConfig/Tests.antt =====
-- A run of a lookup in the configuration (src/JsonConfig.cc), with values that are numbers.
use lt.Base.{ℕ, ◌≡◌, refl, [], ◌∷◌, none, some, ◌==◌, is_empty, not, if◌then◌else◌}
use lt.JsonConfig.{Text, Json, text, thrown, get_val}

-- A file parses unless it is empty; its object 7 has the key 8 with the text 9.
abbrev small : Json
small = record {
  Value = ℕ;
  parse = λ content. (not (is_empty content), if is_empty content then 0 else 1);
  member = λ v name.
      if v == 3
      then none
      else some (elim name [ [] ↦ 0 | c ∷ _ ↦ if c == 7 then 2 else if c == 8 then 3 else 0 ]);
  is_null = λ v. v == 0;
  member_names = λ v. if v == 3 then none else some (if v == 2 then (8 ∷ []) ∷ [] else []);
  as_string = λ v. if v == 3 then some (9 ∷ []) else none;
}

-- The root's member 8 is a text, and no object.
no_object : get_val small (λ f. 1 ∷ []) (4 ∷ []) (8 ∷ []) (8 ∷ []) (5 ∷ []) [] ≡ thrown
unfolding get_val
no_object = refl

abbrev content : Text → Text
content filename = 1 ∷ []

found : get_val small content (4 ∷ []) (7 ∷ []) (8 ∷ []) (5 ∷ []) [] ≡ text (9 ∷ [])
unfolding get_val
found = refl
