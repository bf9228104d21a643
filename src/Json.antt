-- ===== src/Json.antt =====
-- JavaScript values as the codecs see them, and `JSON.stringify` of them. A text is its Unicode code
-- points, of which one in 0xd800 .. 0xdfff is a lone surrogate; a finite number is its decimal text.
mod Tests
use signalk_edge_link.Prelude.{
  ℕ, ◌+◌, ◌/◌, ◌%◌, Bool, true, false, ◌&&◌, ◌||◌, List, [], ◌∷◌, ◌++◌, ltb, leb, ◌==◌,
  if◌then◌else◌,
}

abbrev pub Text : Type 0
Text = List ℕ

mutual
  pub data Json : Type 0 where
    undefined : Json
    null : Json
    boolean : Bool → Json
    number : Text → Json
    nan : Json
    infinity : Json
    negative_infinity : Json
    string : Text → Json
    array : Items → Json
    object : Fields → Json

  pub data Items : Type 0 where
    no_items : Items
    item : Json → Items → Items

  pub data Fields : Type 0 where
    no_fields : Fields
    field : Text → Json → Fields → Fields

-- `===` on texts
unfoldable pub same_text : Text → Text → Bool
same_text [] [] = true
same_text [] (b ∷ bs) = false
same_text (a ∷ as_) [] = false
same_text (a ∷ as_) (b ∷ bs) = a == b && same_text as_ bs

abbrev hex_char : ℕ → ℕ
hex_char n = if ltb n 10 then 48 + n else 87 + n

abbrev unicode_escape : ℕ → Text
unicode_escape c =
    92
    ∷ 117
    ∷ hex_char (c / 4096 % 16)
    ∷ hex_char (c / 256 % 16)
    ∷ hex_char (c / 16 % 16)
    ∷ hex_char (c % 16)
    ∷ []

-- A code point inside a JSON string.
unfoldable pub escape : ℕ → Text
escape c =
    if c == 34 || c == 92
    then 92 ∷ c ∷ []
    else if c == 8
    then 92 ∷ 98 ∷ []
    else if c == 9
    then 92 ∷ 116 ∷ []
    else if c == 10
    then 92 ∷ 110 ∷ []
    else if c == 12
    then 92 ∷ 102 ∷ []
    else if c == 13
    then 92 ∷ 114 ∷ []
    else if ltb c 32 || (leb 0xd800 c && leb c 0xdfff)
    then unicode_escape c
    else c ∷ []

unfoldable pub escape_all : Text → Text
escape_all [] = []
escape_all (c ∷ cs) = escape c ++ escape_all cs

abbrev quote : Text → Text
quote s = (34 ∷ escape_all s) ++ (34 ∷ [])

abbrev null_text : Text
null_text = 110 ∷ 117 ∷ 108 ∷ 108 ∷ []

abbrev pub undefined_text : Text
undefined_text = 117 ∷ 110 ∷ 100 ∷ 101 ∷ 102 ∷ 105 ∷ 110 ∷ 101 ∷ 100 ∷ []

-- A comma before every item but the first; an `undefined` item is `null`, an `undefined` member is
-- left out, and a number that is not finite is `null`.
unfoldable mutual
  pub stringify : Json → Text
  stringify undefined = null_text
  stringify null = null_text
  stringify (boolean true) = 116 ∷ 114 ∷ 117 ∷ 101 ∷ []
  stringify (boolean false) = 102 ∷ 97 ∷ 108 ∷ 115 ∷ 101 ∷ []
  stringify (number n) = n
  stringify nan = null_text
  stringify infinity = null_text
  stringify negative_infinity = null_text
  stringify (string s) = quote s
  stringify (array xs) = (91 ∷ stringify_items true xs) ++ (93 ∷ [])
  stringify (object fs) = (123 ∷ stringify_fields true fs) ++ (125 ∷ [])

  pub stringify_items : Bool → Items → Text
  stringify_items first no_items = []
  stringify_items true (item x xs) = stringify x ++ stringify_items false xs
  stringify_items false (item x xs) = (44 ∷ stringify x) ++ stringify_items false xs

  pub stringify_fields : Bool → Fields → Text
  stringify_fields first no_fields = []
  stringify_fields first (field k undefined fs) = stringify_fields first fs
  stringify_fields true (field k v fs) = quote k ++ (58 ∷ stringify v) ++ stringify_fields false fs
  stringify_fields false (field k v fs) =
      (44 ∷ quote k) ++ (58 ∷ stringify v) ++ stringify_fields false fs
