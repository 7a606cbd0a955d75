-- ===== src/L1Server/Ending.antt =====
-- The end of main(): join_all_threads() and print_statistics(). What the first does is the list of its
-- calls, in order; the second's output is the list of its lines.

pub mod Ready
pub mod Returns
pub mod Stages
pub mod Joined
pub mod Orderly
use ch_frb_l.Base.{
  ℕ, suc, ◌%◌, ◌^◌, ◌-◌, ◌<◌, Bool, true, false, ◌&&◌, ◌||◌, List, [], ◌∷◌, ◌++◌, map, Option, none,
  some, if◌then◌else◌, ok, err, Throws, ◌>>=◌, txt, Text, to_string, int_to_string, text_eq, ltb,
  leb, nat_beq, length, lookup, ℤ, pos, negsuc,
}
use ch_frb_l.Util.{counted}
use ch_frb_l.FrbIo.{FrbIo}
use ch_frb_l.L1Server.{L1Server, Makers}
use ch_frb_l.L1Server.Vectors.{at, for_each}
use ch_frb_l.L1Server.Rpc.{Announcement, concat}
use ch_frb_l.L1Server.Main.{serve}

-- The calls on the objects with these indices.
pub data Ending : Type 0 where
  joined_dedispersion ended_stream joined_device shut_down joined_rpc reset_prometheus : ℕ → Ending

-- The loop over the output devices: end_stream(true), then join_thread().
unfoldable pub end_devices : List ℕ → List Ending
end_devices [] = []
end_devices (i ∷ devices) = ended_stream i ∷ joined_device i ∷ end_devices devices

module _ {D Bonsai Pipeline : Type 0} where
  unfoldable pub join_all_threads : L1Server D Bonsai Pipeline → List Ending
  join_all_threads s =
      let servers = counted 0 (length s.rpc_servers) in
      map joined_dedispersion (counted 0 (length s.dedispersion_threads))
      ++ (end_devices (counted 0 (length s.output_devices))
          ++ (map shut_down servers
              ++ (map joined_rpc servers
                  ++ map reset_prometheus (counted 0 (length s.prometheus_servers)))))

-- The order of `std::string`, by bytes.
unfoldable pub text_leb : Text → Text → Bool
text_leb [] t = true
text_leb (a ∷ s) [] = false
text_leb (a ∷ s) (b ∷ t) = ltb a b || (nat_beq a b && text_leb s t)

-- std::sort of the keys.
unfoldable pub sort_insert : Text → List Text → List Text
sort_insert k [] = k ∷ []
sort_insert k (j ∷ keys) = if text_leb k j then k ∷ j ∷ keys else j ∷ sort_insert k keys

unfoldable pub sort : List Text → List Text
sort [] = []
sort (k ∷ keys) = sort_insert k (sort keys)

-- The conversion of a uint64_t to an `int`.
unfoldable pub to_int : ℕ → ℤ
to_int n = let low = n % 2 ^ 32 in if ltb low (2 ^ 31) then pos low else negsuc (2 ^ 32 - 1 - low)

-- operator[] of an unordered_map with numbers: a missing key gives 0.
unfoldable pub stat_of : Text → List (Text × ℕ) → ℕ
stat_of k stats = elim (lookup k stats) [ none ↦ 0 | some n ↦ n ]

-- The lines of the keys of a record, each with the value that find() gives.
unfoldable pub key_lines : List (Text × ℕ) → List Text → List Text
key_lines stats [] = []
key_lines stats (k ∷ keys) =
    (txt "         " ++ (k ++ (txt " " ++ to_string (stat_of k stats)))) ∷ key_lines stats keys

-- A record of the statistics and its index.
unfoldable pub record_lines : List (Text × ℕ) → ℕ → List Text
record_lines stats irec =
    (txt "    record " ++ to_string irec)
    ∷ key_lines stats (sort (map (λ (kv : Text × ℕ). kv.0) stats))

all_records : ℕ → List (List (Text × ℕ)) → List Text
all_records irec [] = []
all_records irec (stats ∷ rest) = record_lines stats irec ++ all_records (suc irec) rest

-- The record of the whole stream, in two lines; `workfrac` is the quotient of the working time by the sum
-- of the waiting and the working time, as a double that is printed.
short_lines : (ℕ → ℕ → Text) → List (Text × ℕ) → List Text
short_lines workfrac stats =
    (txt "    count_packets_good: "
      ++ int_to_string (to_int (stat_of (txt "count_packets_good") stats)))
    ∷ (txt "    assembler_thread_workfrac: "
        ++ workfrac (stat_of (txt "assembler_thread_waiting_usec") stats)
            (stat_of (txt "assembler_thread_working_usec") stats))
    ∷ []

module _ {D Bonsai Pipeline : Type 0} (workfrac : ℕ → ℕ → Text) where
  -- A stream, with what get_statistics() gives for it.
  unfoldable pub stream_lines :
      L1Server D Bonsai Pipeline → (ℕ → List (List (Text × ℕ))) → ℕ → Throws (List Text)
  unfolding short_lines all_records
  stream_lines s get_statistics istream = do
    ip ← at s.config.settings.ipaddr istream
    udp ← at s.config.settings.port istream
    let head =
        txt "stream "
        ++ (to_string istream
            ++ (txt ": ipaddr=" ++ (ip ++ (txt ", udp_port=" ++ int_to_string udp))))
    let statistics = get_statistics istream
    lines ←
        (if leb s.config.options.l1_verbosity 1
          then (do first ← at statistics 0; ok (short_lines workfrac first))
          else ok (all_records 0 statistics))
    ok (head ∷ lines)

  unfoldable pub print_statistics :
      L1Server D Bonsai Pipeline → (ℕ → List (List (Text × ℕ))) → Throws (List Text)
  print_statistics s get_statistics = if nat_beq s.config.options.l1_verbosity 0 then ok [] else do
    blocks ← for_each (stream_lines s get_statistics) (counted 0 (length s.input_streams))
    ok (concat blocks)

  -- main() from the first phase to its end; `none` while it waits for the dedispersers. The
  -- dedispersion threads and the RPC threads end as they are joined.
  unfoldable pub main :
      Makers D
      → FrbIo
      → List (List (Announcement Bonsai Pipeline))
      → (ℕ → List (List (Text × ℕ)))
      → L1Server D Bonsai Pipeline
      → Option (Throws (List Ending × List Text))
  main mk io polls get_statistics s = elim (serve mk io polls s) [
    | none ↦ none
    | some (err e) ↦ some (err e)
    | some (ok t) ↦ elim (print_statistics t get_statistics) [
      | err e ↦ some (err e)
      | ok lines ↦ some (ok (join_all_threads t, lines))
    ]
  ]
