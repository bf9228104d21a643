-- ===== src/Json/Tests.antt =====
-- `{"a":[1,null],"\n":"\"x"}`, of an object with an `undefined` member.
use signalk_edge_link.Prelude.{◌≡◌, refl, [], ◌∷◌}
use signalk_edge_link.Json.{
  Json, undefined, nan, number, string, array, object, item, no_items, field, no_fields, stringify,
  stringify_items, stringify_fields, escape, escape_all,
}

abbrev nested : Json
nested = object (
    field (97 ∷ []) (array (item (number (49 ∷ [])) (item nan no_items)))
      (field (98 ∷ []) undefined (field (10 ∷ []) (string (34 ∷ 120 ∷ [])) no_fields)))

stringify-nested :
    stringify nested
    ≡ 123 ∷ 34 ∷ 97 ∷ 34 ∷ 58 ∷ 91 ∷ 49 ∷ 44 ∷ 110 ∷ 117 ∷ 108 ∷ 108 ∷ 93 ∷ 44 ∷ 34 ∷ 92 ∷ 110 ∷ 34
      ∷ 58 ∷ 34 ∷ 92 ∷ 34 ∷ 120 ∷ 34 ∷ 125 ∷ []
unfolding stringify stringify_items stringify_fields escape escape_all
stringify-nested = refl
