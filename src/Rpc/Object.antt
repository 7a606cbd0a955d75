-- ===== src/Rpc/Object.antt =====
-- The msgpack objects of requests and replies. Packing and unpacking the bytes is the library's; a
-- request is the list of the objects that unpacking its bytes one after another gives. A `double` is an
-- element of a type `D` of which nothing is known; `str` stands for the types str and bin, which convert
-- to a text alike.
use ch_frb_l.Base.{
  ℕ, Bool, List, [], ◌∷◌, ok, err, Throws, undefined, throws, msg, Text, ℤ, pos, negsuc, ltb,
  if◌then◌else◌, ◌^◌, ◌>>=◌,
}

mutual
  pub data Object (D : Type 0) : Type 0 where
    nil : Object D
    bool : Bool → Object D
    int : ℤ → Object D
    double : D → Object D
    str : Text → Object D
    arr : Items D → Object D
    dict : Fields D → Object D

  pub data Items (D : Type 0) : Type 0 where
    end : Items D
    item : Object D → Items D → Items D

  pub data Fields (D : Type 0) : Type 0 where
    end_fields : Fields D
    field : Text → Object D → Fields D → Fields D

-- A conversion to the wrong type throws msgpack::type_error.
abbrev pub type_error : {A : Type 0} → Throws A
type_error = throws (msg "std::bad_cast")

module _ {D : Type 0} where
  abbrev pub items : List (Object D) → Items D
  items [] = end
  items (o ∷ os) = item o (items os)

  abbrev pub list : Items D → List (Object D)
  list end = []
  list (item o os) = o ∷ list os

  abbrev pub fields : List (Text × Object D) → Fields D
  fields [] = end_fields
  fields ((k, o) ∷ fs) = field k o (fields fs)

  abbrev pub array : List (Object D) → Object D
  array os = arr (items os)

  abbrev pub as_text : Object D → Throws Text
  as_text (str t) = ok t
  as_text _ = type_error

  abbrev pub as_bool : Object D → Throws Bool
  as_bool (bool b) = ok b
  as_bool _ = type_error

  -- as<int>
  abbrev pub as_int : Object D → Throws ℤ
  as_int (int (pos n)) = if ltb n (2 ^ 31) then ok (pos n) else type_error
  as_int (int (negsuc n)) = if ltb n (2 ^ 31) then ok (negsuc n) else type_error
  as_int _ = type_error

  -- An unsigned integer of `w` bits.
  abbrev pub as_uint : ℕ → Object D → Throws ℕ
  as_uint w (int (pos n)) = if ltb n (2 ^ w) then ok n else type_error
  as_uint w _ = type_error

  -- as<double>, which also takes an integer; `of_int` is the conversion.
  abbrev pub as_double : (ℤ → D) → Object D → Throws D
  as_double of_int (double d) = ok d
  as_double of_int (int i) = ok (of_int i)
  as_double of_int _ = type_error

  -- as<float>, for a value that is not used.
  abbrev pub is_number : Object D → Throws Unit
  is_number (double d) = ok tt
  is_number (int i) = ok tt
  is_number _ = type_error

  -- as<vector<int>>
  abbrev pub as_ints : List (Object D) → Throws (List ℤ)
  as_ints [] = ok []
  as_ints (o ∷ os) = as_int o >>= λ i. as_ints os >>= λ is. ok (i ∷ is)

  -- as<vector<string>>
  abbrev pub as_texts : List (Object D) → Throws (List Text)
  as_texts [] = ok []
  as_texts (o ∷ os) = as_text o >>= λ t. as_texts os >>= λ ts. ok (t ∷ ts)

  -- `via.array`, which reads a union with no test of the type: undefined on anything but an array.
  abbrev pub via_array : Object D → Throws (List (Object D))
  via_array (arr os) = ok (list os)
  via_array _ = err undefined

  -- An array that a conversion takes apart.
  abbrev pub as_array : Object D → Throws (List (Object D))
  as_array (arr os) = ok (list os)
  as_array _ = type_error

  -- msgpack::unpack at the offset after the last object: no object is left, or the next one.
  abbrev pub unpack : List (Object D) → Throws (Object D × List (Object D))
  unpack [] = throws (msg "insufficient bytes")
  unpack (o ∷ rest) = ok (o, rest)
