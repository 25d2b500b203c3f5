-- ===== src/Metrics/Registry.antt =====
-- New of internal/metrics/metrics.go: the instruments that it makes and registers. The Prometheus
-- registry is the parameter `Registry`; MustRegister panics where Register returns an error.
use api_ratelimiter.Base.{
  ℕ, ◌≡◌, Bool, true, false, not, ◌&&◌, ◌||◌, Option, none, some, List, [], ◌∷◌, Text, codes,
  text_eq, has_prefix, length, leb, ltb, ◌==◌, if◌then◌else◌,
}
use api_ratelimiter.Url.{has_byte}

-- A counter with labels, a counter, a gauge, or a histogram with exponential buckets: their first bound
-- in ten-thousandths, the factor between two, and their number.
pub data Kind : Type 0 where
  counter_vec : List Text → Kind
  counter gauge : Kind
  histogram : ℕ → ℕ → ℕ → Kind

pub record Instrument : Type 0 where
  pub name : Text
  pub help : Text
  pub kind : Kind

-- The arguments of MustRegister.
unfoldable pub instruments : List Instrument
instruments =
    record {
      name = codes "ratelimit_requests_total";
      help = codes "Total ratelimit requests by result";
      kind = counter_vec (codes "result" ∷ []);
    }
    ∷ record {
      name = codes "ratelimit_counters_known_active";
      help = codes "Active counters in KnownCounters map";
      kind = gauge;
    }
    ∷ record {
      name = codes "ratelimit_counters_unknown_active";
      help = codes "Active counters in UnknownCounters map";
      kind = gauge;
    }
    ∷ record {
      name = codes "ratelimit_memory_bytes";
      help = codes "Approximate memory used by both counter maps";
      kind = gauge;
    }
    ∷ record {
      name = codes "ratelimit_cleanup_runs_total";
      help = codes "Number of cleanup cycles run";
      kind = counter;
    }
    ∷ record {
      name = codes "ratelimit_cleanup_deleted_total";
      help = codes "Counters deleted by cleanup";
      kind = counter;
    }
    ∷ record {
      name = codes "ratelimit_cleanup_transferred_total";
      help = codes "Counters transferred to redis by cleanup";
      kind = counter;
    }
    ∷ record {
      name = codes "ratelimit_cleanup_last_duration_seconds";
      help = codes "Duration of the last cleanup cycle";
      kind = gauge;
    }
    ∷ record {
      name = codes "ratelimit_redis_errors_total";
      help = codes "Redis errors observed";
      kind = counter;
    }
    ∷ record {
      name = codes "ratelimit_redis_db1_keys";
      help = codes "Keys in redisDB1";
      kind = gauge;
    }
    ∷ record {
      name = codes "ratelimit_redis_db2_keys";
      help = codes "Keys in redisDB2";
      kind = gauge;
    }
    ∷ record {
      name = codes "ratelimit_redis_db3_keys";
      help = codes "Keys in redisDB3";
      kind = gauge;
    }
    ∷ record {
      name = codes "ratelimit_check_duration_seconds";
      help = codes "Duration of /check handler";
      kind = histogram 1 2 14;
    }
    ∷ []

-- The children of the counter of requests: the values of its label.
unfoldable pub request_results : List Text
request_results = codes "allowed" ∷ codes "blocked_individual" ∷ codes "blocked_global" ∷ []

unfoldable pub is_name_start : ℕ → Bool
is_name_start c = leb b'a' c && leb c b'z' || leb b'A' c && leb c b'Z' || c == b'_' || c == b':'

unfoldable pub is_name_rest : Text → Bool
is_name_rest [] = true
is_name_rest (c ∷ s) = (is_name_start c || leb b'0' c && leb c b'9') && is_name_rest s

-- The names that Prometheus accepts: [a-zA-Z_:][a-zA-Z0-9_:]*
unfoldable pub is_metric_name : Text → Bool
is_metric_name [] = false
is_metric_name (c ∷ s) = is_name_start c && is_name_rest s

-- The labels that Prometheus accepts: [a-zA-Z_][a-zA-Z0-9_]* without "__" in front, no two the same.
unfoldable pub is_label_name : Text → Bool
is_label_name s = is_metric_name s && not (has_byte b':' s) && not (has_prefix s (codes "__"))

unfoldable pub has_label : Text → List Text → Bool
has_label n [] = false
has_label n (x ∷ xs) = text_eq x n || has_label n xs

unfoldable pub are_labels : List Text → Bool
are_labels [] = true
are_labels (x ∷ xs) = is_label_name x && not (has_label x xs) && are_labels xs

unfoldable pub labels_of : Kind → List Text
labels_of (counter_vec labels) = labels
labels_of counter = []
labels_of gauge = []
labels_of (histogram start factor count) = []

-- An instrument whose descriptor Prometheus accepts.
unfoldable pub is_described : Instrument → Bool
is_described x = is_metric_name x.name && are_labels (labels_of x.kind)

-- Whether an instrument can be made: ExponentialBuckets panics without a bucket, with a first bound
-- that is not positive, and with a factor that is not greater than 1.
unfoldable pub can_be_made : Instrument → Bool
can_be_made x = elim x.kind [
  | counter_vec labels ↦ true
  | counter ↦ true
  | gauge ↦ true
  | histogram start factor count ↦ ltb 0 start && ltb 1 factor && ltb 0 count
]

unfoldable pub all_made : List Instrument → Bool
all_made [] = true
all_made (x ∷ xs) = can_be_made x && all_made xs

-- WithLabelValues panics unless it gets a value for each label; New calls it with one value each time.
unfoldable pub takes_one_value : Kind → Bool
takes_one_value k = length (labels_of k) == 1

-- requestsTotal
unfoldable pub has_children : List Instrument → Bool
has_children [] = false
has_children (x ∷ xs) = takes_one_value x.kind

unfoldable pub has_name : Text → List Instrument → Bool
has_name n [] = false
has_name n (x ∷ xs) = text_eq x.name n || has_name n xs

-- A registry, what it holds, and Register: `none` is an error.
pub record Registry : Type 1 where
  pub State : Type 0
  pub empty : State
  pub held : State → List Instrument
  pub register : Instrument → State → Option State

-- What Prometheus documents: a new registry is empty, and Register takes an instrument whose name and
-- labels are valid and whose name is not held yet.
pub record IsRegistry (g : Registry) : Type 0 where
  pub held-empty : g.held g.empty ≡ []
  pub register_new :
      (x : Instrument) (s : g.State)
      → is_described x ≡ true
      → has_name x.name (g.held s) ≡ false
      → (s' : g.State) × (g.register x s ≡ some s') × (g.held s' ≡ x ∷ g.held s)

module _ (g : Registry) where
  registered : List Instrument → Option g.State → Option g.State
  registered xs none = none
  registered [] (some s) = some s
  registered (x ∷ xs) (some s) = registered xs (g.register x s)

  -- MustRegister: `none` where it panics
  unfoldable pub must_register : List Instrument → g.State → Option g.State
  unfolding registered
  must_register xs s = registered xs (some s)

  -- New: `none` where it panics, else the registry that it returns.
  unfoldable pub new_registry : Option g.State
  new_registry =
      if has_children instruments && all_made instruments
      then must_register instruments g.empty
      else none

-- Every descriptor is valid and every name stands once, in the list and against the instruments before it.
unfoldable pub all_fresh : List Instrument → List Instrument → Bool
all_fresh [] before = true
all_fresh (x ∷ xs) before =
    is_described x && not (has_name x.name before) && all_fresh xs (x ∷ before)

-- The instruments in the order in which a registry gets them, the newest first.
abbrev pub onto : List Instrument → List Instrument → List Instrument
onto [] before = before
onto (x ∷ xs) before = onto xs (x ∷ before)
