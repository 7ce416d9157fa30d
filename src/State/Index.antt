-- ===== src/State/Index.antt =====
-- `set_messages_received` of crates/rbft/src/types/node_state.rs, which sorts any messages given and
-- rebuilds the key set.
use rbft.Base.{
  ◌≡◌, refl, ap, ◌∙◌, List, [], ◌∷◌, true, false, ◌||◌, arith, min, length, map, Bool-cases, inl,
  inr,
}
use rbft.Types.{QbftMessage}
use rbft.Message.{Key, key_ltb, key_eq, components}
use rbft.State.{NodeState, insert_sorted, has_key}
use rbft.State.Order.{
  keys, Above, IsSorted, Above-trans, key_eq_subst, has_key-insert_sorted, key_ltb_of_not,
}
use rbft.State.Store.{IsStore}

-- `sort_by_key`, which is stable: each message goes before the first whose key is not below.
unfoldable pub sort_by_key : List QbftMessage → List QbftMessage
sort_by_key [] = []
sort_by_key (m ∷ ms) = insert_sorted m (sort_by_key ms)

-- `dedup_by`: drops each message with the key of the one kept before it.
unfoldable pub dedup_after : QbftMessage → List QbftMessage → List QbftMessage
dedup_after prev [] = []
dedup_after prev (m ∷ ms) = elim (key_eq (components m) (components prev)) [
  | true ↦ dedup_after prev ms
  | false ↦ m ∷ dedup_after m ms
]

unfoldable pub dedup_by_key : List QbftMessage → List QbftMessage
unfolding dedup_after
dedup_by_key [] = []
dedup_by_key (m ∷ ms) = m ∷ dedup_after m ms

unfoldable pub rebuild_message_index : NodeState → NodeState
rebuild_message_index s =
    let ms = dedup_by_key (sort_by_key s.messages_received) in
    record s { messages_received = ms; message_keys = map components ms }

unfoldable pub set_messages_received : NodeState → List QbftMessage → NodeState
unfolding rebuild_message_index
set_messages_received s ms =
    let t = rebuild_message_index (record s { messages_received = ms }) in
    record t { first_future_message = min t.first_future_message (length t.messages_received) }

-- No key is below k.
abbrev NotBelow : Key → List QbftMessage → Type 0
NotBelow k [] = Unit {0}
NotBelow k (m ∷ ms) = (key_ltb (components m) k ≡ false) × NotBelow k ms

abbrev IsAscending : List QbftMessage → Type 0
IsAscending [] = Unit {0}
IsAscending (m ∷ ms) = NotBelow (components m) ms × IsAscending ms

not_below_trans : (a b c : Key) → key_ltb b a ≡ false → key_ltb c b ≡ false → key_ltb c a ≡ false
not_below_trans (h, r, t, a) (h', r', t', a') (h'', r'', t'', a'') p q = ground arith

not_below_of_ltb : (a b : Key) → key_ltb a b ≡ true → key_ltb b a ≡ false
not_below_of_ltb (h, r, t, a) (h', r', t', a') p = ground arith

NotBelow-trans :
    (a b : Key) (ms : List QbftMessage) → key_ltb b a ≡ false → NotBelow b ms → NotBelow a ms
NotBelow-trans a b [] h w = tt
NotBelow-trans a b (m ∷ ms) h w =
    (not_below_trans a b (components m) h w.0, NotBelow-trans a b ms h w.1)

insert_sorted-NotBelow :
    (k : Key) (m : QbftMessage) (ms : List QbftMessage)
    → key_ltb (components m) k ≡ false
    → NotBelow k ms
    → NotBelow k (insert_sorted m ms)
unfolding insert_sorted
insert_sorted-NotBelow k m [] h w = (h, tt)
insert_sorted-NotBelow k m (x ∷ xs) h w =
    elim (Bool-cases (key_ltb (components x) (components m))) [
      | inl e ↦ rw e (w.0, insert_sorted-NotBelow k m xs h w.1)
      | inr e ↦ rw e (h, w)
    ]

insert_sorted-IsAscending :
    (m : QbftMessage) (ms : List QbftMessage) → IsAscending ms → IsAscending (insert_sorted m ms)
unfolding insert_sorted
insert_sorted-IsAscending m [] w = (tt, tt)
insert_sorted-IsAscending m (x ∷ xs) w = elim (Bool-cases (key_ltb (components x) (components m))) [
  | inl e ↦ rw e (
    insert_sorted-NotBelow (components x) m xs (not_below_of_ltb (components x) (components m) e)
        w.0,
    insert_sorted-IsAscending m xs w.1,
  )
  | inr e ↦ rw e ((e, NotBelow-trans (components m) (components x) xs e w.0), w)
]

sort_by_key-IsAscending : (ms : List QbftMessage) → IsAscending (sort_by_key ms)
unfolding sort_by_key
sort_by_key-IsAscending [] = tt
sort_by_key-IsAscending (m ∷ ms) =
    insert_sorted-IsAscending m (sort_by_key ms) (sort_by_key-IsAscending ms)

key_eq_sym : (a b : Key) → key_eq a b ≡ key_eq b a
key_eq_sym (h, r, t, a) (h', r', t', a') = ground arith

-- What is kept after `prev` is above it, and sorted with no key twice.
dedup_after-IsSorted :
    (prev : QbftMessage) (ms : List QbftMessage)
    → NotBelow (components prev) ms
    → IsAscending ms
    → Above (components prev) (dedup_after prev ms) × IsSorted (dedup_after prev ms)
unfolding dedup_after
dedup_after-IsSorted prev [] n w = (tt, tt)
dedup_after-IsSorted prev (m ∷ ms) n w =
    elim (Bool-cases (key_eq (components m) (components prev))) [
      | inl e ↦ rw (dedup_after, e) (dedup_after-IsSorted prev ms n.1 w.1)
      | inr e ↦
          let above =
            key_ltb_of_not (components m) (components prev) n.0
              (key_eq_sym (components prev) (components m) ∙ e) in
          let (a, s) = dedup_after-IsSorted m ms w.0 w.1 in
          rw (dedup_after, e)
            (
              (above, Above-trans (components prev) (components m) (dedup_after m ms) above a),
              (a, s),
            )
    ]

dedup_by_key-IsSorted : (ms : List QbftMessage) → IsAscending ms → IsSorted (dedup_by_key ms)
unfolding dedup_by_key
dedup_by_key-IsSorted [] w = tt
dedup_by_key-IsSorted (m ∷ ms) w = dedup_after-IsSorted m ms w.0 w.1

has_key-dedup_after :
    (prev : QbftMessage) (ms : List QbftMessage) (k : Key)
    → (key_eq k (components prev) || has_key (keys (dedup_after prev ms)) k)
      ≡ (key_eq k (components prev) || has_key (keys ms) k)
unfolding dedup_after
has_key-dedup_after prev [] k = refl
has_key-dedup_after prev (m ∷ ms) k = elim (Bool-cases (key_eq (components m) (components prev))) [
  | inl e ↦
      let same = key_eq_subst (components prev) (components m) k e in
      rw (dedup_after, e) (ground (arith, has_key-dedup_after prev ms k, same))
  | inr e ↦ rw (dedup_after, e) (ground (arith, has_key-dedup_after m ms k))
]

has_key-sort_by_key :
    (ms : List QbftMessage) (k : Key) → has_key (keys (sort_by_key ms)) k ≡ has_key (keys ms) k
unfolding sort_by_key
has_key-sort_by_key [] k = refl
has_key-sort_by_key (m ∷ ms) k =
    has_key-insert_sorted m (sort_by_key ms) k
    ∙ ap (λ b. key_eq k (components m) || b) (has_key-sort_by_key ms k)

has_key-dedup_by_key :
    (ms : List QbftMessage) (k : Key) → has_key (keys (dedup_by_key ms)) k ≡ has_key (keys ms) k
unfolding dedup_by_key
has_key-dedup_by_key [] k = refl
has_key-dedup_by_key (m ∷ ms) k = has_key-dedup_after m ms k

-- Whatever messages a node is given, `set_messages_received` leaves a well-formed store, which holds
-- exactly the keys of these messages.
pub set_messages_received-IsStore :
    (s : NodeState) (ms : List QbftMessage)
    → IsStore (set_messages_received s ms)
      × ((k : Key) → has_key (set_messages_received s ms).message_keys k ≡ has_key (keys ms) k)
unfolding set_messages_received
set_messages_received-IsStore s ms = (
  record {
    sorted = dedup_by_key-IsSorted (sort_by_key ms) (sort_by_key-IsAscending ms);
    indexed = λ k. refl;
    slice = omega arith;
  },
  λ k. has_key-dedup_by_key (sort_by_key ms) k ∙ has_key-sort_by_key ms k,
)
