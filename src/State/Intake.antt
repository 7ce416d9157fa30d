-- ===== src/State/Intake.antt =====
-- `add_messages`: what enters the store, and what leaves it.
use mathlib.Core.List.{Memᴰ}
use rbft.Base.{
  ℕ, ◌≤◌, List, [], ◌∷◌, ◌≡◌, refl, ◌∙◌, true, arith, take, partition_point, AllOf, Bool-cases, inl,
  inr, ◌⊎◌, subst,
}
use rbft.Types.{Address, QbftMessage}
use rbft.Env.{Env}
use rbft.Chain.{Blockchain}
use rbft.Chain
use rbft.Chain.Prune.{height-prune}
use rbft.Message.{Key, key_eq, components}
use rbft.Message
use rbft.State.{
  NodeState, has_key, insert_message_sorted, accepts, add_message, add_each, add_messages,
  prune_messages_below_height, messages_received, below_height,
}
use rbft.State.Order.{key_eq_refl, has_key-remove_keys}
use rbft.State.Store.{
  IsStore, IsPruned, insert_message_sorted-IsStore, prune_messages-IsStore, prune_messages-IsPruned,
}
use rbft.State.Retained.{AllOf-insert_sorted, AllOf-drop, has_key-below}

pub insert_message-blockchain :
    (s : NodeState) (m : QbftMessage) → (insert_message_sorted s m).blockchain ≡ s.blockchain
unfolding insert_message_sorted
insert_message-blockchain s m = ground arith

module _ ⦃env : Env⦄ where
  -- The three ways a round of the loop can go.
  pub add_message_cases {ℓ} :
      (P : NodeState → Type ℓ) (vs : List Address) (s : NodeState) (m : QbftMessage)
      → P s
      → (accepts s.blockchain vs m ≡ true
          → Chain.height s.blockchain ≤ Message.height m
          → P (insert_message_sorted s m))
      → P (add_message vs s m)
  unfolding add_message
  add_message_cases P vs s m stay put = ground (arith, put)

  add_message-blockchain :
      (vs : List Address) (s : NodeState) (m : QbftMessage)
      → (add_message vs s m).blockchain ≡ s.blockchain
  add_message-blockchain vs s m =
      add_message_cases (λ t. t.blockchain ≡ s.blockchain) vs s m refl
        (λ a h. insert_message-blockchain s m)

  add_each-IsStore :
      (vs : List Address) (ms : List QbftMessage) (s : NodeState)
      → IsStore s
      → IsStore (add_each vs ms s)
  unfolding add_each
  add_each-IsStore vs [] s v = v
  add_each-IsStore vs (m ∷ ms) s v =
      add_each-IsStore vs ms (add_message vs s m)
        (add_message_cases IsStore vs s m v (λ a h. insert_message_sorted-IsStore s m v))

  pub add_each-blockchain :
      (vs : List Address) (ms : List QbftMessage) (s : NodeState)
      → (add_each vs ms s).blockchain ≡ s.blockchain
  unfolding add_each
  add_each-blockchain vs [] s = refl
  add_each-blockchain vs (m ∷ ms) s =
      add_each-blockchain vs ms (add_message vs s m) ∙ add_message-blockchain vs s m

  add_message-AllOf :
      (P : QbftMessage → Type 0) (vs : List Address) (s : NodeState) (m : QbftMessage)
      → AllOf P s.messages_received
      → (accepts s.blockchain vs m ≡ true → P m)
      → AllOf P (add_message vs s m).messages_received
  unfolding insert_message_sorted
  add_message-AllOf P vs s m w h =
      add_message_cases (λ t. AllOf P t.messages_received) vs s m w
        (λ a _. elim (Bool-cases (has_key s.message_keys (components m))) [
          | inl e ↦ rw e w
          | inr e ↦ rw e (AllOf-insert_sorted P m s.messages_received (h a) w)
        ])

  -- Where a message can have come from.
  abbrev pub Origin : NodeState → List QbftMessage → QbftMessage → Type 0
  Origin s incoming m =
      Memᴰ m s.messages_received
      ⊎ (Memᴰ m incoming × (accepts s.blockchain (Chain.validators s.blockchain) m ≡ true))

  add_each-AllOf :
      (P : QbftMessage → Type 0) (vs : List Address) (ms : List QbftMessage) (s : NodeState)
      → AllOf P s.messages_received
      → ((m : QbftMessage) → Memᴰ m ms → accepts s.blockchain vs m ≡ true → P m)
      → AllOf P (add_each vs ms s).messages_received
  unfolding add_each
  add_each-AllOf P vs [] s w h = w
  add_each-AllOf P vs (m ∷ ms) s w h =
      add_each-AllOf P vs ms (add_message vs s m)
        (add_message-AllOf P vs s m w (h m (Memᴰ.head refl)))
        (λ m' i a. h m' (Memᴰ.tail i) (rw (add_message-blockchain vs s m) at a))

  AllOf-self :
      (P : QbftMessage → Type 0) (ms : List QbftMessage)
      → ((m : QbftMessage) → Memᴰ m ms → P m)
      → AllOf P ms
  AllOf-self P [] h = tt
  AllOf-self P (m ∷ ms) h = (h m (Memᴰ.head refl), AllOf-self P ms (λ m' i. h m' (Memᴰ.tail i)))

  -- Every message stored after `add_messages` was stored before, or was given and passed the checks
  -- of authors, signatures and digests.
  pub add_messages-Origin :
      (s : NodeState) (incoming : List QbftMessage) (time : ℕ)
      → AllOf (Origin s incoming) (add_messages s incoming time).messages_received
  unfolding add_messages prune_messages_below_height
  add_messages-Origin s incoming time = AllOf-drop (Origin s incoming) _ _ (
      add_each-AllOf (Origin s incoming) (Chain.validators s.blockchain) incoming _
        (AllOf-self (Origin s incoming) s.messages_received (λ m i. inl i)) (λ m i a. inr (i, a)))

  -- `add_messages` keeps the store well-formed; afterwards the messages received are those of the
  -- current height, and all others are of later heights.
  pub add_messages-IsStore :
      (s : NodeState) (incoming : List QbftMessage) (time : ℕ)
      → IsStore s
      → IsStore (add_messages s incoming time) × IsPruned (add_messages s incoming time)
  unfolding add_messages messages_received
  add_messages-IsStore s incoming time v =
      let vs = Chain.validators s.blockchain in
      let t = add_each vs incoming (record s { local_time = time }) in
      let w =
        add_each-IsStore vs incoming (record s { local_time = time })
          (record { sorted = v.sorted; indexed = v.indexed; slice = v.slice }) in
      let p = prune_messages-IsPruned t w in
      let q = prune_messages-IsStore t w in
      (
        record { sorted = q.sorted; indexed = q.indexed; slice = q.slice },
        record {
          current = rw (height-prune (prune_messages_below_height t).blockchain) p.current;
          future = rw (height-prune (prune_messages_below_height t).blockchain) p.future;
        },
      )

  has_key-add_message :
      (vs : List Address) (s : NodeState) (m : QbftMessage) (k : Key)
      → has_key s.message_keys k ≡ true
      → has_key (add_message vs s m).message_keys k ≡ true
  unfolding add_message insert_message_sorted
  has_key-add_message vs s m k h = ground arith

  has_key-add_each :
      (vs : List Address) (ms : List QbftMessage) (s : NodeState) (k : Key)
      → has_key s.message_keys k ≡ true
      → has_key (add_each vs ms s).message_keys k ≡ true
  unfolding add_each
  has_key-add_each vs [] s k h = h
  has_key-add_each vs (m ∷ ms) s k h =
      has_key-add_each vs ms (add_message vs s m) k (has_key-add_message vs s m k h)

  -- A message that passes the checks is in the store after its round of the loop, or was there.
  has_key-add_message_self :
      (vs : List Address) (s : NodeState) (m : QbftMessage)
      → accepts s.blockchain vs m ≡ true
      → Chain.height s.blockchain ≤ Message.height m
      → has_key (add_message vs s m).message_keys (components m) ≡ true
  unfolding add_message insert_message_sorted
  has_key-add_message_self vs s m a h = ground (arith, key_eq_refl (components m))

  has_key-add_each_mem :
      (vs : List Address) (ms : List QbftMessage) (s : NodeState) (m : QbftMessage)
      → Memᴰ m ms
      → accepts s.blockchain vs m ≡ true
      → Chain.height s.blockchain ≤ Message.height m
      → has_key (add_each vs ms s).message_keys (components m) ≡ true
  unfolding add_each
  has_key-add_each_mem vs [] s m i a h = elim i [ ]
  has_key-add_each_mem vs (x ∷ ms) s m (Memᴰ.head e) a h =
      has_key-add_each vs ms (add_message vs s x) (components m) (
        subst (λ y. has_key (add_message vs s y).message_keys (components m) ≡ true) e
          (has_key-add_message_self vs s m a h))
  has_key-add_each_mem vs (x ∷ ms) s m (Memᴰ.tail i) a h =
      has_key-add_each_mem vs ms (add_message vs s x) m i (rw (add_message-blockchain vs s x) a)
        (rw (add_message-blockchain vs s x) h)

  has_key-prune :
      (s : NodeState) (m : QbftMessage)
      → has_key s.message_keys (components m) ≡ true
      → Chain.height s.blockchain ≤ Message.height m
      → has_key (prune_messages_below_height s).message_keys (components m) ≡ true
  unfolding prune_messages_below_height
  has_key-prune s m h l =
      let hb = Chain.height s.blockchain in
      let n = partition_point (below_height hb) s.messages_received in
      ground (
        arith,
        has_key-remove_keys (take n s.messages_received) (components m) s.message_keys,
        has_key-below hb s.messages_received m l,
      )

  -- No message is lost: one that is given, passes the checks and is not of an earlier height has its
  -- key in the store afterwards; and so does a stored one that is not of an earlier height.
  pub add_messages-keeps :
      (s : NodeState) (incoming : List QbftMessage) (time : ℕ) (m : QbftMessage)
      → Chain.height s.blockchain ≤ Message.height m
      → (has_key s.message_keys (components m) ≡ true)
        ⊎ (Memᴰ m incoming × (accepts s.blockchain (Chain.validators s.blockchain) m ≡ true))
      → has_key (add_messages s incoming time).message_keys (components m) ≡ true
  unfolding add_messages
  add_messages-keeps s incoming time m l given =
      let vs = Chain.validators s.blockchain in
      let u : NodeState = record s { local_time = time } in
      has_key-prune (add_each vs incoming u) m
        (elim given [
          | inl old ↦ has_key-add_each vs incoming u (components m) old
          | inr (i, a) ↦ has_key-add_each_mem vs incoming u m i a l
        ])
        (rw (add_each-blockchain vs incoming u) l)
