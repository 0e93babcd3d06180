-- ===== src/Ingest/Values.antt =====
-- The values of a JSON document, and the whole numbers that Python reads from them.
use Prim.Native.String.{[], ◌∷◌}
use Prim.Native.Char.{code}
use sipmedia_gw.Prelude.{
  ℕ, zero, suc, String, ◌==◌, Bool, true, false, Option, none, some, List, [], ◌∷◌, ltb, leb, eqb,
  if◌then◌else◌,
}
use sipmedia_gw.Text.{strip, parse_nat}

pub data ℤ : Type 0 where
  pos : ℕ → ℤ
  negsuc : ℕ → ℤ

-- a < b
unfoldable pub less : ℤ → ℤ → Bool
less (pos a) (pos b) = ltb a b
less (pos a) (negsuc b) = false
less (negsuc a) (pos b) = true
less (negsuc a) (negsuc b) = ltb b a

-- A number with a fraction or an exponent is kept as its text.
mutual
  pub data Json : Type 0 where
    null : Json
    bool : Bool → Json
    whole : ℤ → Json
    real : String → Json
    text : String → Json
    list : Items → Json
    object : Fields → Json

  pub data Items : Type 0 where
    no_items : Items
    item : Json → Items → Items

  pub data Fields : Type 0 where
    no_fields : Fields
    field : String → Json → Fields → Fields

-- d.get(key), where the code makes no difference between an absent key and a null.
unfoldable pub get : String → Fields → Json
get key no_fields = null
get key (field k v d) = if k == key then v else get key d

-- What Python's float says of the text of a number: its whole part, none for an infinite one, whether
-- it is finite and whether it is zero.
pub record Floats : Type 0 where
  pub trunc : String → Option ℤ
  pub is_finite : String → Bool
  pub is_zero : String → Bool
  pub reads : String → Option String

abbrev pub negated : Option ℕ → Option ℤ
negated none = none
negated (some zero) = some (pos zero)
negated (some (suc n)) = some (negsuc n)

abbrev pub not_negated : Option ℕ → Option ℤ
not_negated none = none
not_negated (some n) = some (pos n)

abbrev pub signed : String → Option ℤ
signed [] = none
signed (c ∷ s) =
    if eqb (code c) 45
    then negated (parse_nat s)
    else if eqb (code c) 43
    then not_negated (parse_nat s)
    else not_negated (parse_nat (c ∷ s))

-- INT_LIMIT
abbrev pub int_limit : ℕ
int_limit = 2147483647

unfoldable pub in_limits : ℤ → Bool
in_limits (pos n) = leb n int_limit
in_limits (negsuc n) = ltb n int_limit

abbrev pub limited : Option ℤ → Option ℤ
limited none = none
limited (some z) = if in_limits z then some z else none

-- int(value), `none` for an exception; a text is digits after a sign, without underscores.
unfoldable pub python_int : Floats → Json → Option ℤ
unfolding strip parse_nat
python_int io null = none
python_int io (bool b) = some (pos (if b then 1 else 0))
python_int io (whole z) = some z
python_int io (real s) = io.trunc s
python_int io (text s) = signed (strip s)
python_int io (list xs) = none
python_int io (object d) = none

-- _int
unfoldable pub int_of : Floats → Json → Option ℤ
unfolding python_int in_limits
int_of io v = limited (python_int io v)

abbrev pub finite : Floats → Option String → Option String
finite io none = none
finite io (some s) = if io.is_finite s then some s else none

-- _float, as the text of the number; a whole number and a text are read by float.
unfoldable pub float_of : Floats → (ℤ → String) → Json → Option String
float_of io spelled null = none
float_of io spelled (bool b) = some (if b then "1.0" else "0.0")
float_of io spelled (whole z) = finite io (io.reads (spelled z))
float_of io spelled (real s) = finite io (some s)
float_of io spelled (text s) = finite io (io.reads s)
float_of io spelled (list xs) = none
float_of io spelled (object d) = none

-- _obj
abbrev pub obj : Json → Fields
obj (object d) = d
obj null = no_fields
obj (bool b) = no_fields
obj (whole z) = no_fields
obj (real s) = no_fields
obj (text s) = no_fields
obj (list xs) = no_fields

-- The objects among the items.
unfoldable pub objects : Items → List Fields
objects no_items = []
objects (item (object d) xs) = d ∷ objects xs
objects (item null xs) = objects xs
objects (item (bool b) xs) = objects xs
objects (item (whole z) xs) = objects xs
objects (item (real s) xs) = objects xs
objects (item (text s) xs) = objects xs
objects (item (list ys) xs) = objects xs
