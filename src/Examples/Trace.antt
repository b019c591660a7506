-- ===== src/Examples/Trace.antt =====
-- Runs of the reduction of a request trace.
use nuclei_security_center.Common.{
  ◌≡◌, ◌↔◌, Any, true, refl, ◌≤◌, none, some, [], ◌∷◌, codes, length, if◌then◌else◌, chars_eq,
  arith,
}
use nuclei_security_center.Login.Clients.{is_space, trim_left, trim_space}
use nuclei_security_center.Orchestrator.Records.{delimited}
use nuclei_security_center.Trace.Endpoint.{
  NetLibrary, endpoint_key, key_of_text, key_of_authority, key_of_address, canonical_endpoint,
  joined, join_host_port, normalize_host, authority_of, count_of, trim_brackets, trim_left_brackets,
  default_endpoint_port, before_any, after_last, cut_colon,
}
use nuclei_security_center.Stats.{StatsWriter}
use nuclei_security_center.Stats.Lines.{writes, put_bytes, joined_writes, writes-put_bytes}
use nuclei_security_center.Trace.Ported.{Ported, endpoint_key-Ported}
use nuclei_security_center.Trace.{
  TraceEvent, Pair, has_pair, endpoint_of, outcome, add_pair, count_outcome, keep_fragment,
  trace_lines, less_pair, insert_pair, sort_pairs, report, process, covered_endpoints_from_trace,
  max_coverage_pairs,
}
use nuclei_security_center.Trace.Lines.{whole_lines}
use nuclei_security_center.Trace.Evidence.{Evidence, covered_endpoints_from_trace_exact}

abbrev net : NetLibrary
net = record {
  parse_url = λ s. none;
  split_host_port = λ s. none;
  addr_text = λ s. none;
  to_lower = λ s. s;
  atoi = λ s. if chars_eq s (codes "80") then some 80 else none;
  itoa = λ n. n ∷ [];
}

endpoint_key-Ported_example : Ported net (endpoint_key net (codes "h:80") (codes "dns"))
endpoint_key-Ported_example = endpoint_key-Ported net (codes "h:80") (codes "dns")

abbrev event : TraceEvent
event = record {
  template = codes "t";
  type = codes "http";
  input = [];
  address = codes "h";
  error = some (codes "none");
}

abbrev pair : Pair
pair = record { template_id = codes "t"; endpoint = 104 ∷ 58 ∷ 80 ∷ [] }

covered_endpoints_from_trace_exact_example :
    ((p : Pair)
      → (has_pair p (pair ∷ []) ≡ true)
        ↔ Any
            (Evidence net (λ s. some event) (λ t. some t) p)
            (whole_lines [] (delimited (codes "x") ∷ [])))
    × (length (pair ∷ []) ≤ max_coverage_pairs)
unfolding is_space trim_left trim_space before_any after_last authority_of count_of cut_colon
    trim_left_brackets trim_brackets join_host_port default_endpoint_port normalize_host joined
    canonical_endpoint key_of_address key_of_authority key_of_text endpoint_key endpoint_of outcome
    add_pair count_outcome keep_fragment trace_lines less_pair insert_pair sort_pairs report process
    covered_endpoints_from_trace
covered_endpoints_from_trace_exact_example =
    covered_endpoints_from_trace_exact net (λ s. some event) (λ t. some t)
      (delimited (codes "x") ∷ []) (pair ∷ []) refl

abbrev idle : StatsWriter
idle = record { buf = []; handled = [] }

-- Two lines in three writes, with a buffer of two bytes.
writes-put_bytes_example :
    (writes 2 idle ((1 ∷ 2 ∷ []) ∷ (3 ∷ 10 ∷ 4 ∷ []) ∷ (10 ∷ []) ∷ [])
      ≡ put_bytes 2 idle (joined_writes 2 ((1 ∷ 2 ∷ []) ∷ (3 ∷ 10 ∷ 4 ∷ []) ∷ (10 ∷ []) ∷ [])))
    × (length (writes 2 idle ((1 ∷ 2 ∷ []) ∷ (3 ∷ 10 ∷ 4 ∷ []) ∷ (10 ∷ []) ∷ [])).buf ≤ 2)
writes-put_bytes_example =
    writes-put_bytes 2 idle ((1 ∷ 2 ∷ []) ∷ (3 ∷ 10 ∷ 4 ∷ []) ∷ (10 ∷ []) ∷ []) (omega arith)
