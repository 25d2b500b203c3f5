-- ===== src/Admin/Samples.antt =====
-- metricRows of internal/admin/admin.go and the formatting of its values. What Gather returns is an
-- argument: families of samples. Floating-point numbers, their printing, %q and the names of the
-- types are those of Go and of Prometheus, the parameter `Formats`.
use api_ratelimiter.Base.{
  ℕ, Bool, Option, none, some, List, [], ◌∷◌, ◌++◌, map, pos, Text, codes, text_lt,
}
use api_ratelimiter.Strconv.{itoa}
use api_ratelimiter.Admin.Sort.{sort_by}

-- dto.MetricType
pub data MetricType : Type 0 where
  counter gauge summary untyped histogram gauge_histogram : MetricType

pub record Formats : Type 1 where
  pub Float : Type 0
  pub zero_float : Float
  -- strconv.FormatFloat(v, 'f', -1, 64), and the verb %.6f
  pub shortest : Float → Text
  pub six_digits : Float → Text
  pub quote : Text → Text
  pub type_name : MetricType → Text

pub record MetricRow : Type 0 where
  pub name : Text
  pub kind : Text
  pub value : Text
  pub help : Text

module _ (f : Formats) where
  open f use {Float, zero_float, shortest, six_digits, quote, type_name}

  -- The count and the sum of a histogram or a summary
  abbrev pub Totals : Type 0
  Totals = ℕ × Float

  -- dto.Metric: its labels, and the one value that its type tells.
  pub record Sample : Type 0 where
    pub labels : List (Text × Text)
    pub counter_value : Option Float
    pub gauge_value : Option Float
    pub histogram_totals : Option Totals
    pub summary_totals : Option Totals

  -- dto.MetricFamily
  pub record Family : Type 0 where
    pub name : Text
    pub help : Text
    pub kind : MetricType
    pub samples : List Sample

  -- GetValue of a value that may be nil
  unfoldable pub get_value : Option Float → Float
  get_value none = zero_float
  get_value (some v) = v

  -- formatHistogram
  unfoldable pub format_histogram : Option Totals → Text
  format_histogram none = []
  format_histogram (some (count, sum)) =
      codes "count=" ++ itoa (pos count) ++ codes " sum=" ++ six_digits sum ++ codes "s"

  -- formatSummary
  unfoldable pub format_summary : Option Totals → Text
  format_summary none = []
  format_summary (some (count, sum)) =
      codes "count=" ++ itoa (pos count) ++ codes " sum=" ++ six_digits sum

  -- formatMetricValue
  unfoldable pub format_metric_value : Sample → MetricType → Text
  format_metric_value m counter = shortest (get_value m.counter_value)
  format_metric_value m gauge = shortest (get_value m.gauge_value)
  format_metric_value m histogram = format_histogram m.histogram_totals
  format_metric_value m summary = format_summary m.summary_totals
  format_metric_value m untyped = codes "unsupported: " ++ type_name untyped
  format_metric_value m gauge_histogram = codes "unsupported: " ++ type_name gauge_histogram

  -- strings.Join(parts, ",")
  unfoldable pub join_commas : List Text → Text
  join_commas [] = []
  join_commas (s ∷ []) = s
  join_commas (s ∷ t ∷ ts) = s ++ b',' ∷ join_commas (t ∷ ts)

  unfoldable pub part_of : Text × Text → Text
  part_of (name, value) = name ++ b'=' ∷ quote value

  -- The name of a row
  unfoldable pub label_of : Text → List (Text × Text) → Text
  label_of name [] = name
  label_of name (l ∷ ls) = name ++ b'{' ∷ join_commas (map part_of (l ∷ ls)) ++ codes "}"

  unfoldable pub sample_row : Family → Sample → MetricRow
  sample_row mf m = record {
    name = label_of mf.name m.labels;
    kind = type_name mf.kind;
    value = format_metric_value m mf.kind;
    help = mf.help;
  }

  unfoldable pub rows_of : List Family → List MetricRow
  rows_of [] = []
  rows_of (mf ∷ mfs) = map (sample_row mf) mf.samples ++ rows_of mfs

  unfoldable pub by_name : MetricRow → MetricRow → Bool
  by_name r s = text_lt r.name s.name

  -- metricRows, for what Gather returns
  unfoldable pub metric_rows : Option (List Family) → List MetricRow
  metric_rows none = []
  metric_rows (some mfs) = sort_by by_name (rows_of mfs)
