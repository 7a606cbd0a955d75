-- ===== src/L1Server/Ending/Stages.antt =====
-- The calls that end the server's objects: their stages, and the objects of those of one kind.
use ch_frb_l.Base.{
  ℕ, ◌≤◌, ◌≡◌, refl, ap, Bool, true, false, List, [], ◌∷◌, ◌++◌, map, arith, inl, inr, ◌⊎◌,
  if◌then◌else◌, append-nil, subst,
}
use ch_frb_l.Util.{counted}
use ch_frb_l.L1Server.Ending.{
  Ending, joined_dedispersion, ended_stream, joined_device, shut_down, joined_rpc, reset_prometheus,
  end_devices,
}

-- The stage of a call.
abbrev pub stage : Ending → ℕ
stage (joined_dedispersion i) = 0
stage (ended_stream i) = 1
stage (joined_device i) = 1
stage (shut_down i) = 2
stage (joined_rpc i) = 3
stage (reset_prometheus i) = 4

-- No call stands before one of an earlier stage; `n` is the stage so far.
abbrev pub InStages : ℕ → List Ending → Type 0
InStages n [] = Unit
InStages n (e ∷ endings) = (n ≤ stage e) × InStages (stage e) endings

-- The index of the object of a call.
abbrev pub index : Ending → ℕ
index (joined_dedispersion i) = i
index (ended_stream i) = i
index (joined_device i) = i
index (shut_down i) = i
index (joined_rpc i) = i
index (reset_prometheus i) = i

-- The objects of the calls that a test selects, in order.
abbrev pub indices : (Ending → Bool) → List Ending → List ℕ
indices is [] = []
indices is (e ∷ endings) = if is e then index e ∷ indices is endings else indices is endings

abbrev pub is_joined_dedispersion : Ending → Bool
is_joined_dedispersion (joined_dedispersion i) = true
is_joined_dedispersion e = false

abbrev pub is_ended_stream : Ending → Bool
is_ended_stream (ended_stream i) = true
is_ended_stream e = false

abbrev pub is_joined_device : Ending → Bool
is_joined_device (joined_device i) = true
is_joined_device e = false

abbrev pub is_shut_down : Ending → Bool
is_shut_down (shut_down i) = true
is_shut_down e = false

abbrev pub is_joined_rpc : Ending → Bool
is_joined_rpc (joined_rpc i) = true
is_joined_rpc e = false

abbrev pub is_reset : Ending → Bool
is_reset (reset_prometheus i) = true
is_reset e = false

-- Each of the objects, of which there are these numbers, is ended by one call, in the order of its vector;
-- and the calls are in stages: the dedispersion threads are joined first, then each device's stream ends and
-- its thread is joined, then the RPC servers are shut down, then joined, then the web servers go.
pub record IsOrderly (threads outputs rpc prometheus : ℕ) (endings : List Ending) : Type 0 where
  pub staged : InStages 0 endings
  pub dedispersers : indices is_joined_dedispersion endings ≡ counted 0 threads
  pub streams : indices is_ended_stream endings ≡ counted 0 outputs
  pub devices : indices is_joined_device endings ≡ counted 0 outputs
  pub servers : indices is_shut_down endings ≡ counted 0 rpc
  pub rpcs : indices is_joined_rpc endings ≡ counted 0 rpc
  pub webs : indices is_reset endings ≡ counted 0 prometheus

pub indices-append :
    (is : Ending → Bool) (xs ys : List Ending)
    → indices is (xs ++ ys) ≡ indices is xs ++ indices is ys
indices-append is [] ys = refl
indices-append is (x ∷ xs) ys = ground (arith, indices-append is xs ys)

pub all_of :
    (is : Ending → Bool) (c : ℕ → Ending) (xs : List ℕ)
    → ((i : ℕ) → (is (c i) ≡ true) × (index (c i) ≡ i))
    → indices is (map c xs) ≡ xs
all_of is c [] h = refl
all_of is c (x ∷ xs) h = rw ((h x).0, (h x).1) (ap (◌∷◌ x) (all_of is c xs h))

pub none_of :
    (is : Ending → Bool) (c : ℕ → Ending) (xs : List ℕ)
    → ((i : ℕ) → is (c i) ≡ false)
    → indices is (map c xs) ≡ []
none_of is c [] h = refl
none_of is c (x ∷ xs) h = rw (h x) (none_of is c xs h)

pub of_devices :
    (is : Ending → Bool) (xs : List ℕ)
    → ((i : ℕ) → (is (ended_stream i) ≡ true) × (is (joined_device i) ≡ false))
      ⊎ ((i : ℕ) → (is (ended_stream i) ≡ false) × (is (joined_device i) ≡ true))
    → indices is (end_devices xs) ≡ xs
unfolding end_devices
of_devices is [] h = refl
of_devices is (x ∷ xs) (inl h) = rw ((h x).0, (h x).1) (ap (◌∷◌ x) (of_devices is xs (inl h)))
of_devices is (x ∷ xs) (inr h) = rw ((h x).0, (h x).1) (ap (◌∷◌ x) (of_devices is xs (inr h)))

pub not_devices :
    (is : Ending → Bool) (xs : List ℕ)
    → ((i : ℕ) → (is (ended_stream i) ≡ false) × (is (joined_device i) ≡ false))
    → indices is (end_devices xs) ≡ []
unfolding end_devices
not_devices is [] h = refl
not_devices is (x ∷ xs) h = rw ((h x).0, (h x).1) (not_devices is xs h)

InStages-lower : (k n : ℕ) (xs : List Ending) → k ≤ n → InStages n xs → InStages k xs
InStages-lower k n [] h r = tt
InStages-lower k n (x ∷ xs) h r = (omega (arith, h, r.0), r.1)

pub InStages-map :
    (n m : ℕ) (c : ℕ → Ending) (xs : List ℕ) (rest : List Ending)
    → n ≤ m
    → ((i : ℕ) → stage (c i) ≡ m)
    → InStages m rest
    → InStages n (map c xs ++ rest)
InStages-map n m c [] rest h e r = InStages-lower n m rest h r
InStages-map n m c (x ∷ xs) rest h e r = rw (e x) (h, InStages-map m m c xs rest (omega arith) e r)

pub InStages-last :
    (n m : ℕ) (c : ℕ → Ending) (xs : List ℕ)
    → n ≤ m
    → ((i : ℕ) → stage (c i) ≡ m)
    → InStages n (map c xs)
InStages-last n m c xs h e =
    subst (InStages n) (append-nil (map c xs)) (InStages-map n m c xs [] h e tt)

pub InStages-devices :
    (n : ℕ) (xs : List ℕ) (rest : List Ending)
    → n ≤ 1
    → InStages 1 rest
    → InStages n (end_devices xs ++ rest)
unfolding end_devices
InStages-devices n [] rest h r = InStages-lower n 1 rest h r
InStages-devices n (x ∷ xs) rest h r =
    (h, (omega arith, InStages-devices 1 xs rest (omega arith) r))
