-- ===== src/Logjam/Reports.antt =====
-- The analysis of summaries never panics, and reports a message at most once to be missing at a node,
-- which some other node has sent.
use rbft.Base.{
  ℕ, ◌+◌, ◌/◌, ◌^◌, ◌<◌, ◌≡◌, refl, ◌∙◌, ap, List, [], ◌∷◌, ◌++◌, Option, none, some, AllOf, Exec,
  ◌>>=◌, Gives, Gives_ok, Bool-cases, inl, inr, if-holds,
}
use rbft.Logjam.{MessageKey}
use rbft.Logjam.Histogram.{
  DeliveryHistogram, IsHistogram, new-IsHistogram, dump_and_reset-IsHistogram, is_dump_due,
}
use rbft.Logjam.Delivery.{
  NetworkState, LogLine, new, time_of, marked, report_unreceived, levels, dumped, before_line,
  after_line, process_line, process_lines,
}
use rbft.Logjam.Network.{IsNetwork, Kept, receive_each-Kept, send_each-Kept}
use rbft.Logjam.Missing.{missing, missing-ReportedOnce, missing-SentByOther}

AllOf-append :
    (P : ℕ × MessageKey → Type 0) (xs ys : List (ℕ × MessageKey))
    → AllOf P xs
    → AllOf P ys
    → AllOf P (xs ++ ys)
AllOf-append P [] ys w v = v
AllOf-append P (x ∷ xs) ys w v = (w.0, AllOf-append P xs ys w.1 v)

-- What is reported at a line is added to the reports.
abbrev Reports : LogLine → NetworkState → NetworkState × List MessageKey → Type 0
Reports line s r =
    IsNetwork r.0 × (r.0.reported_unreceived ≡ marked line.validator r.1 ++ s.reported_unreceived)

report_unreceived-Reports :
    (line : LogLine) (s : NetworkState) → IsNetwork s → Reports line s (report_unreceived line s)
unfolding report_unreceived
report_unreceived-Reports line s v =
    let node = line.validator in
    let now = line.timestamp in
    let max_delay = s.max_message_delay_ms in
    let tracker = s.broadcast_tracker in
    (
      record {
        histogram = record {
          some_bucket = v.histogram.some_bucket;
          few = v.histogram.few;
          size = v.histogram.size;
          counts = v.histogram.counts;
        };
        apart = v.apart;
        once = missing-ReportedOnce node now max_delay s.reported_unreceived tracker v.apart v.once;
        sent =
            AllOf-append _ (marked node (missing node now max_delay s.reported_unreceived tracker))
              _ (missing-SentByOther node now max_delay s.reported_unreceived tracker v.apart)
              v.sent;
      },
      refl,
    )

more-IsHistogram :
    (h : DeliveryHistogram) (warns errors : ℕ)
    → IsHistogram h
    → IsHistogram (record h { warn_count = warns; error_count = errors })
more-IsHistogram h warns errors v = record {
  some_bucket = v.some_bucket;
  few = v.few;
  size = v.size;
  counts = v.counts;
}

levels-IsHistogram :
    (line : LogLine) (h : DeliveryHistogram) → IsHistogram h → IsHistogram (levels line h)
levels-IsHistogram line h v =
    if-holds IsHistogram line.is_warn _ _ (more-IsHistogram h _ _ v)
      (if-holds IsHistogram line.is_error _ _ (more-IsHistogram h _ _ v) v)

dumped-IsHistogram :
    (now : Option ℕ) (h : DeliveryHistogram) → IsHistogram h → IsHistogram (dumped now h)
dumped-IsHistogram none h v = v
dumped-IsHistogram (some now) h v =
    if-holds IsHistogram (is_dump_due h.last_dump now) _ _ (dump_and_reset-IsHistogram h now v) v

before_line-Reports :
    (line : LogLine) (s : NetworkState) → IsNetwork s → Gives (before_line line s) (Reports line s)
before_line-Reports line s v =
    let (t, f, (w, same)) =
      receive_each-Kept line.validator (time_of line) line.input_messages s v in
    let (x, added) = report_unreceived-Reports line t w in
    if-holds (λ (m : Exec (NetworkState × List MessageKey)). Gives m (Reports line s))
      line.is_before_line _ _
      (rw f (
        Gives_ok (Reports line s) (report_unreceived line t)
          (x, added ∙ ap (λ ys. marked line.validator (report_unreceived line t).1 ++ ys) same)))
      (Gives_ok (Reports line s) (s, []) (v, refl))

after_line-Kept :
    (line : LogLine) (s : NetworkState) → IsNetwork s → Gives (after_line line s) (Kept s)
after_line-Kept line s v = elim (Bool-cases line.is_after_line) [
  | inr e ↦ rw e (Gives_ok (Kept s) s (v, refl))
  | inl e ↦ rw e (
      receive_each-Kept line.validator (time_of line) line.input_messages _
        (send_each-Kept line.validator (time_of line) line.output_messages s v))
]

-- From a network state in which the buckets of the histogram count each message once, no key of the
-- tracker stands twice, no report stands twice, and each report is of a message that another node has
-- sent: a line of any content is processed without a panic, to such a state again, and the reports
-- are those before with what the line reports as missing at its node.
process_line-Reports :
    (s : NetworkState) (line : LogLine) → IsNetwork s → Gives (process_line s line) (Reports line s)
unfolding process_line
process_line-Reports s line v =
    let h = dumped line.timestamp (levels line s.histogram) in
    let u : NetworkState = record s { histogram = h } in
    let vu : IsNetwork u = record {
      histogram =
          dumped-IsHistogram line.timestamp _ (levels-IsHistogram line s.histogram v.histogram);
      apart = v.apart;
      once = v.once;
      sent = v.sent;
    } in
    let (r, e, (w, added)) = before_line-Reports line u vu in
    let (t, f, (x, same)) = after_line-Kept line r.0 w in
    rw (e, f) (Gives_ok (Reports line s) (t, r.1) (x, same ∙ added))

-- A new network state is such a one, with buckets of a positive size and fewer than 2^60 of them.
new-IsNetwork :
    (max_delay_ms bucket_size_ms now : ℕ)
    → 0 < bucket_size_ms
    → max_delay_ms / bucket_size_ms + 1 < 2 ^ 60
    → Gives (new max_delay_ms bucket_size_ms now) IsNetwork
unfolding new
new-IsNetwork max_delay bucket now pos few =
    let (h, e, v) = new-IsHistogram max_delay bucket now pos few in
    rw e (Gives_ok IsNetwork _ (record { histogram = v; apart = tt; once = tt; sent = tt }))

process_lines-IsNetwork :
    (s : NetworkState) (lines : List LogLine)
    → IsNetwork s
    → Gives (process_lines s lines) IsNetwork
unfolding process_lines
process_lines-IsNetwork s [] v = Gives_ok IsNetwork s v
process_lines-IsNetwork s (line ∷ lines) v =
    let (r, e, (w, _)) = process_line-Reports s line v in rw e (process_lines-IsNetwork r.0 lines w)

-- The analysis of any lines, in any order, from a new network state with buckets of a positive size and
-- fewer than 2^60 of them, returns: nothing panics. After it the buckets of the histogram count each
-- recorded receipt once, no message is reported twice as missing at the same node, and each report is of
-- a message that some other node has sent.
pub new-process_lines-IsNetwork :
    (max_delay_ms bucket_size_ms now : ℕ) (lines : List LogLine)
    → 0 < bucket_size_ms
    → max_delay_ms / bucket_size_ms + 1 < 2 ^ 60
    → Gives (new max_delay_ms bucket_size_ms now >>= λ s. process_lines s lines) IsNetwork
new-process_lines-IsNetwork max_delay bucket now lines pos few =
    let (s, e, v) = new-IsNetwork max_delay bucket now pos few in
    rw e (process_lines-IsNetwork s lines v)
