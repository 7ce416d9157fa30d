-- ===== src/Logjam/Network.antt =====
-- What holds of the network state between two lines, and what sends and receipts do to it.
use rbft.Base.{
  ℕ, ◌≡◌, refl, ◌∙◌, List, [], ◌∷◌, Option, none, some, true, false, not, ◌==◌, AllOf, AllOf-map,
  arith, Gives, Gives_ok, Bool-cases, inl, inr,
}
use rbft.Logjam.{MessageKey, same_key, find_entry, put_entry, earliest}
use rbft.Logjam.Maps.{
  IsApart, find_entry-put_entry, put_entry-IsApart, any-put_entry, same_key_sound, same_key_refl,
}
use rbft.Logjam.Histogram.{DeliveryHistogram, IsHistogram, record_delay-IsHistogram}
use rbft.Logjam.Delivery.{
  MessageInfo, Tracker, NetworkState, received_by, record_since, receive_known, receive_one,
  receive_each, send_one, send_each, is_reported, sent_by_other,
}

-- A message of the tracker that some other node than this one has sent.
abbrev pub IsSentByOther : Tracker → ℕ × MessageKey → Type 0
IsSentByOther tracker (node, key) =
    (info : MessageInfo) × (find_entry same_key tracker key ≡ some info)
    × (sent_by_other node info ≡ true)

-- No report stands twice.
abbrev pub ReportedOnce : List (ℕ × MessageKey) → Type 0
ReportedOnce [] = Unit {0}
ReportedOnce ((node, key) ∷ reported) =
    (is_reported reported node key ≡ false) × ReportedOnce reported

pub record IsNetwork (s : NetworkState) : Type 0 where
  pub histogram : IsHistogram s.histogram
  pub apart : IsApart same_key s.broadcast_tracker
  pub once : ReportedOnce s.reported_unreceived
  pub sent : AllOf (IsSentByOther s.broadcast_tracker) s.reported_unreceived

-- An insertion that loses no sender keeps what is known of the reports.
pub put_entry-sent :
    (tracker : Tracker) (key : MessageKey) (info : MessageInfo)
    → ((node : ℕ) (old : MessageInfo)
        → find_entry same_key tracker key ≡ some old
        → sent_by_other node old ≡ true
        → sent_by_other node info ≡ true)
    → (r : ℕ × MessageKey) → IsSentByOther tracker r
    → IsSentByOther (put_entry same_key tracker key info) r
put_entry-sent tracker key info grows (node, k) (old, g, s) =
    let after = find_entry-put_entry same_key same_key_sound same_key_refl tracker key k info in
    elim (Bool-cases (same_key key k)) [
      | inl e ↦
          let same = same_key_sound key k e in
          (info, after ∙ rw e refl, grows node old (rw same g) s)
      | inr e ↦ (old, after ∙ rw e g, s)
    ]

-- What a line may do to the network without a report.
abbrev pub Kept : NetworkState → NetworkState → Type 0
Kept s t = IsNetwork t × (t.reported_unreceived ≡ s.reported_unreceived)

record_since-IsHistogram :
    (h : DeliveryHistogram) (time : ℕ) (sent : Option ℕ)
    → IsHistogram h
    → Gives (record_since h time sent) IsHistogram
record_since-IsHistogram h time none v = Gives_ok IsHistogram h v
record_since-IsHistogram h time (some sent) v =
    let (g, e, (w, _, _)) = record_delay-IsHistogram h _ v in (g, e, w)

receive_known-Kept :
    (node time : ℕ) (s : NetworkState) (key : MessageKey) (o : Option MessageInfo)
    → find_entry same_key s.broadcast_tracker key ≡ o
    → IsNetwork s
    → Gives (receive_known node time s key o) (Kept s)
receive_known-Kept node time s key none g v = Gives_ok (Kept s) s (v, refl)
receive_known-Kept node time s key (some info) g v =
    let (h, e, w) = record_since-IsHistogram s.histogram time (earliest info.senders) v.histogram in
    rw e (
      Gives_ok (Kept s) _ (
        record {
          histogram = w;
          apart = put_entry-IsApart same_key same_key_sound same_key_refl _ key _ v.apart;
          once = v.once;
          sent =
              AllOf-map _ _ s.reported_unreceived
                (put_entry-sent s.broadcast_tracker key (received_by node time info)
                  λ other old h sent. ground (arith, g))
                v.sent;
        },
        refl,
      ))

pub receive_each-Kept :
    (node time : ℕ) (keys : List MessageKey) (s : NetworkState)
    → IsNetwork s
    → Gives (receive_each node time keys s) (Kept s)
unfolding receive_each receive_one
receive_each-Kept node time [] s v = Gives_ok (Kept s) s (v, refl)
receive_each-Kept node time (key ∷ keys) s v =
    let (t, e, (w, same)) = receive_known-Kept node time s key _ refl v in
    let (u, f, (x, then_same)) = receive_each-Kept node time keys t w in
    rw e (u, f, (x, then_same ∙ same))

send_one-IsNetwork :
    (node time : ℕ) (key : MessageKey) (s : NetworkState)
    → IsNetwork s
    → IsNetwork (record s { broadcast_tracker = send_one node time s.broadcast_tracker key })
unfolding send_one
send_one-IsNetwork node time key s v = record {
  histogram = v.histogram;
  apart = put_entry-IsApart same_key same_key_sound same_key_refl _ key _ v.apart;
  once = v.once;
  sent =
      AllOf-map _ _ s.reported_unreceived
        (put_entry-sent s.broadcast_tracker key _ λ other old g sent.
          rw g (any-put_entry (λ sender. not (sender == other)) old.senders node time sent))
        v.sent;
}

pub send_each-Kept :
    (node time : ℕ) (keys : List MessageKey) (s : NetworkState)
    → IsNetwork s
    → IsNetwork (record s { broadcast_tracker = send_each node time keys s.broadcast_tracker })
unfolding send_each
send_each-Kept node time [] s v = record {
  histogram = v.histogram;
  apart = v.apart;
  once = v.once;
  sent = v.sent;
}
send_each-Kept node time (key ∷ keys) s v =
    let w = send_one-IsNetwork node time key s v in
    send_each-Kept node time keys
      (record s { broadcast_tracker = send_one node time s.broadcast_tracker key }) w
