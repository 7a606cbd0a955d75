-- ===== src/Examples/Params.antt =====
-- A parameter file with two integer parameters, one of which has been asked for.
use ch_frb_l.Base.{
  ◌≡◌, ◌⊎◌, true, false, [], ◌∷◌, some, none, Text, txt, text_eq, ok, err, runtime_error, add,
  lookup, ℤ, pos, int_to_string,
}
use ch_frb_l.ParamFile.{
  ParamFile, Scalar, has_param, as_scalar, read_scalar_or, check_for_unused_params,
}
use ch_frb_l.ParamFile.Keys.{
  AllRequested, Complains, check_for_unused_params-cases, read_scalar_or_cases,
}

abbrev params : ParamFile ℤ
params = record {
  filename = txt "l0.yaml";
  yaml = (txt "nbeams", pos 16) ∷ (txt "nthreads", pos 4) ∷ [];
  verbosity = 1;
  all_keys = txt "nbeams" ∷ txt "nthreads" ∷ [];
  requested_keys = txt "nbeams" ∷ [];
  printed = [];
}

abbrev integer : Scalar ℤ ℤ
integer = record {
  as_type = λ n. some n;
  as_vector = λ n. none;
  type_name = txt "int";
  stringify = int_to_string;
}

check_for_unused_params-cases_example :
    (AllRequested params params.all_keys
      × (check_for_unused_params true params ≡ ok (true, params)))
    ⊎ ((¬ AllRequested params params.all_keys) × Complains true params)
check_for_unused_params-cases_example = check_for_unused_params-cases true params

read_scalar_or_cases_example :
    ((has_param (txt "nthreads") params ≡ false)
      × ((q : ParamFile ℤ) × (read_scalar_or integer (txt "nthreads") (pos 1) params
            ≡ ok (pos 1, q))
          × (q.requested_keys ≡ params.requested_keys)))
    ⊎ ((has_param (txt "nthreads") params ≡ true)
        × ((a : ℤ) × (q : ParamFile ℤ) × (as_scalar integer (lookup (txt "nthreads") params.yaml)
              ≡ some a)
            × (read_scalar_or integer (txt "nthreads") (pos 1) params ≡ ok (a, q))
            × (q.requested_keys ≡ add (txt "nthreads") params.requested_keys)))
    ⊎ ((has_param (txt "nthreads") params ≡ true)
        × (as_scalar integer (lookup (txt "nthreads") params.yaml) ≡ none)
        × ((x : Text) × (read_scalar_or integer (txt "nthreads") (pos 1) params
              ≡ err (runtime_error x))))
read_scalar_or_cases_example = read_scalar_or_cases integer (txt "nthreads") (pos 1) params
