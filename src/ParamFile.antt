-- ===== src/ParamFile.antt =====
-- yaml_paramfile (ch_frb_l1.hpp and yaml_paramfile.cpp): the parameters of a YAML file, with the set
-- of the keys that have been asked for. The YAML library is a parameter: a type of nodes, a loader,
-- and for each type T of the templates the conversions `as<T>` and `as<vector<T>>`, which throw
-- (`none`) on a node of another form. A method is a function of the object's state; what it prints to
-- the terminal is collected in `printed`, oldest first.
pub mod Keys
pub mod Returns
use ch_frb_l.Base.{
  ℕ, ◌+◌, ◌<◌, Bool, true, false, not, ◌||◌, List, [], ◌∷◌, ◌++◌, Option, none, some, if◌then◌else◌,
  Result, ok, err, Throws, Failure, runtime_error, throws, msg, txt, Text, text_eq, ◌==◌, ltb,
  length, filter, lookup, insert, add, contains, ℤ, is_neg, pos_part, int_to_string,
}

pub record ParamFile (Node : Type 0) : Type 0 where
  pub filename : Text
  pub yaml : List (Text × Node)
  pub verbosity : ℕ
  pub all_keys : List Text
  pub requested_keys : List Text
  pub printed : List Text

-- What the templates need of a type T.
pub record Scalar (Node A : Type 0) : Type 0 where
  pub as_type : Node → Option A
  pub as_vector : Node → Option (List A)
  pub type_name : Text
  pub stringify : A → Text

-- A method that may throw; the object's state is lost with an exception, which ends its owner.
abbrev pub Reader : Type 0 → Type 0 → Type 0
Reader Node A = ParamFile Node → Throws (A × ParamFile Node)

infixl 5 ◌>>=◌ ◌>>◌
abbrev pub ◌>>=◌ : {Node A B : Type 0} → Reader Node A → (A → Reader Node B) → Reader Node B
◌>>=◌ m f p = elim (m p) [ ok (a, p') ↦ f a p' | err e ↦ err e ]

abbrev pub ◌>>◌ : {Node A B : Type 0} → Reader Node A → Reader Node B → Reader Node B
m >> k = m >>= λ _. k

-- A whole document, as the loader returns it: a map with the keys that convert to strings, or another
-- kind of node.
pub data Document (Node : Type 0) : Type 0 where
  a_map : List (Option Text × Node) → Document Node
  no_map : Document Node

-- _die()
unfoldable pub die : {A : Type 0} → Text → Text → Throws A
die filename text = throws (filename ++ msg ": " ++ text)

-- The keys in quotes, separated by commas.
quoted : List Text → Text
quoted [] = []
quoted (k ∷ []) = b'\'' ∷ (k ++ b'\'' ∷ [])
quoted (k ∷ l ∷ keys) = b'\'' ∷ (k ++ (txt "', " ++ quoted (l ∷ keys)))

unused_message : List Text → Text
unfolding quoted
unused_message keys =
    (if ltb 1 (length keys) then txt "unused parameters " else txt "unused parameter ")
    ++ quoted keys

module _ {Node : Type 0} where
  abbrev pub pure : {A : Type 0} → A → Reader Node A
  pure a p = ok (a, p)

  abbrev pub lift : {A : Type 0} → Throws A → Reader Node A
  lift (ok a) p = ok (a, p)
  lift (err e) p = err e

  -- The entries of the map, in order; a key that is no string ends the constructor.
  read_keys : Text → List (Option Text × Node) → Throws (List (Text × Node) × List Text)
  unfolding die
  read_keys name [] = ok ([], [])
  read_keys name ((none, n) ∷ rest) = die name (
      msg
        "file parsed successfully, and toplevel yaml node is a Map, but not every key in the map is a string")
  read_keys name ((some k, n) ∷ rest) = elim (read_keys name rest) [
    | err e ↦ err e
    | ok (yaml, keys) ↦ ok ((k, n) ∷ yaml, add k keys)
  ]

  unfoldable pub from_document : Text → ℕ → Document Node → Throws (ParamFile Node)
  unfolding read_keys
  from_document name verbosity no_map =
      die name (msg "file parsed successfully, but toplevel yaml node is not a Map")
  from_document name verbosity (a_map entries) = elim (read_keys name entries) [
    | err e ↦ err e
    | ok (yaml, keys) ↦ ok (record {
      filename = name;
      yaml = yaml;
      verbosity = verbosity;
      all_keys = keys;
      requested_keys = [];
      printed = [];
    })
  ]

  -- The constructor. `exists` is the answer of file_exists; `loaded` is what opening and parsing the
  -- file gives: no stream, the parser's error, or a document.
  unfoldable pub yaml_paramfile :
      Text → ℤ → Throws Bool → Option (Result Text (Document Node)) → Throws (ParamFile Node)
  yaml_paramfile name verbosity exists loaded =
      if is_neg verbosity || ltb 2 (pos_part verbosity)
      then die name (
          msg "verbosity constructor argument (="
          ++ int_to_string verbosity
          ++ msg ") must be 0, 1, or 2")
      else elim exists [
        | err e ↦ err e
        | ok false ↦ die name (msg "file not found")
        | ok true ↦ elim loaded [
          | none ↦
              die name
                (msg "miscellaneous I/O failure (file exists, but ifstream constructor failed)")
          | some (err what) ↦ die name (msg "couldn't parse yaml file (" ++ what ++ msg ")")
          | some (ok document) ↦ from_document name (pos_part verbosity) document
        ]
      ]

  unfoldable pub has_param : Text → ParamFile Node → Bool
  has_param k p = contains k p.all_keys

  print : Text → ParamFile Node → ParamFile Node
  print text p = record p { printed = p.printed ++ (p.filename ++ msg ": " ++ text) ∷ [] }

  request : Text → ParamFile Node → ParamFile Node
  request k p = record p { requested_keys = add k p.requested_keys }

  -- The end of _read_scalar2() and _read_vector2(): note the key, and announce its value.
  found : Text → Text → ParamFile Node → ParamFile Node
  unfolding print request
  found k shown p =
      let q = request k p in
      if ltb 1 p.verbosity then print (k ++ msg " = " ++ shown ++ msg "\n") q else q

  announce_default : Text → Text → ParamFile Node → ParamFile Node
  unfolding print
  announce_default k shown p =
      if ltb 0 p.verbosity
      then print
          (msg "parameter '" ++ k ++ msg "' not found, using default value " ++ shown ++ msg "\n") p
      else p

  not_found : {A : Type 0} → Text → ParamFile Node → Throws A
  unfolding die
  not_found k p = die p.filename (msg "parameter '" ++ k ++ msg "' not found")

  module _ {A : Type 0} (t : Scalar Node A) where
    -- yaml[k].as<T>(), for a key that may be missing from the map.
    pub as_scalar : Option Node → Option A
    as_scalar none = none
    as_scalar (some n) = t.as_type n

    wrong_type : Text → Text
    wrong_type k = msg "expected '" ++ k ++ msg "' to have type " ++ t.type_name

    read_scalar1 : Text → ParamFile Node → Throws A
    unfolding as_scalar die
    read_scalar1 k p = elim (as_scalar (lookup k p.yaml)) [
      | some a ↦ ok a
      | none ↦ die p.filename (wrong_type k)
    ]

    read_scalar2 : Text → Reader Node A
    unfolding read_scalar1 found
    read_scalar2 k p = elim (read_scalar1 k p) [
      | ok a ↦ ok (a, found k (t.stringify a) p)
      | err e ↦ err e
    ]

    unfoldable pub read_scalar : Text → Reader Node A
    unfolding read_scalar2 not_found wrong_type
    read_scalar k p = if has_param k p then read_scalar2 k p else not_found k p

    unfoldable pub read_scalar_or : Text → A → Reader Node A
    unfolding read_scalar2 announce_default wrong_type
    read_scalar_or k default_val p =
        if has_param k p
        then read_scalar2 k p
        else ok (default_val, announce_default k (t.stringify default_val) p)

    -- A list, or a scalar as a list of length 1.
    as_list : Option Node → Option (List A)
    as_list none = none
    as_list (some n) = elim (t.as_vector n) [
      | some v ↦ some v
      | none ↦ elim (t.as_type n) [ some a ↦ some (a ∷ []) | none ↦ none ]
    ]

    read_vector1 : Text → ParamFile Node → Throws (List A)
    unfolding as_list die
    read_vector1 k p = elim (as_list (lookup k p.yaml)) [
      | some v ↦ ok v
      | none ↦ die p.filename (
          msg "expected '"
          ++ k
          ++ msg "' to have type "
          ++ t.type_name
          ++ msg ", or be a list of "
          ++ t.type_name
          ++ msg "s")
    ]

    stringify_rest : List A → Text
    stringify_rest [] = msg " ]"
    stringify_rest (a ∷ v) = msg ", " ++ (t.stringify a ++ stringify_rest v)

    -- stringify() of a vector.
    unfoldable pub stringify_vector : List A → Text
    unfolding stringify_rest
    stringify_vector [] = msg "[ " ++ msg " ]"
    stringify_vector (a ∷ v) = msg "[ " ++ (t.stringify a ++ stringify_rest v)

    read_vector2 : Text → Reader Node (List A)
    unfolding read_vector1 found
    read_vector2 k p = elim (read_vector1 k p) [
      | ok v ↦ ok (v, found k (stringify_vector v) p)
      | err e ↦ err e
    ]

    unfoldable pub read_vector : Text → Reader Node (List A)
    unfolding read_vector2 not_found
    read_vector k p = if has_param k p then read_vector2 k p else not_found k p

    unfoldable pub read_vector_or : Text → List A → Reader Node (List A)
    unfolding read_vector2 announce_default
    read_vector_or k default_val p =
        if has_param k p
        then read_vector2 k p
        else ok (default_val, announce_default k (stringify_vector default_val) p)

  unused_keys : ParamFile Node → List Text
  unused_keys p = filter (λ k. not (contains k p.requested_keys)) p.all_keys

  -- `true` when every parameter of the file has been asked for; the message of a warning goes to cerr.
  unfoldable pub check_for_unused_params : Bool → Reader Node Bool
  unfolding unused_keys unused_message print die
  check_for_unused_params fatal p = elim (unused_keys p) [
    | [] ↦ ok (true, p)
    | k ∷ keys ↦
        if fatal
        then die p.filename (unused_message (k ∷ keys))
        else ok (false, print (unused_message (k ∷ keys) ++ txt "\n") p)
  ]
