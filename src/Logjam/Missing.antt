-- ===== src/Logjam/Missing.antt =====
-- The messages that `get_unreceived_messages_for_node` finds missing at a node.
use rbft.Base.{
  ℕ, ◌≡◌, refl, sym, ◌∙◌, subst, List, [], ◌∷◌, ◌++◌, Option, none, some, true, false, ◌||◌, AllOf,
  AllOf-map, arith, Bool-cases, inl, inr,
}
use rbft.Logjam.{MessageKey, same_key, find_entry}
use rbft.Logjam.Maps.{IsApart, same_key_sound, same_key_refl}
use rbft.Logjam.Delivery.{
  MessageInfo, Tracker, is_reported, sent_by_other, is_unreceived, get_unreceived_messages_for_node,
  marked,
}
use rbft.Logjam.Network.{IsSentByOther, ReportedOnce}

some-none : {A : Type 0} {x : A} → some x ≡ none → ⊥
some-none e = cc

is_reported-append :
    (xs ys : List (ℕ × MessageKey)) (node : ℕ) (key : MessageKey)
    → is_reported (xs ++ ys) node key ≡ (is_reported xs node key || is_reported ys node key)
is_reported-append [] ys node key = refl
is_reported-append (x ∷ xs) ys node key = ground (arith, is_reported-append xs ys node key)

module _ (node : ℕ) (now : Option ℕ) (max_delay_ms : ℕ) (reported : List (ℕ × MessageKey)) where
  abbrev pub missing : Tracker → List MessageKey
  missing tracker = get_unreceived_messages_for_node tracker node now max_delay_ms reported

  -- Only messages of the tracker are missing.
  missing-unknown :
      (tracker : Tracker) (key : MessageKey)
      → find_entry same_key tracker key ≡ none
      → is_reported (marked node (missing tracker)) node key ≡ false
  unfolding find_entry get_unreceived_messages_for_node
  missing-unknown [] key g = refl
  missing-unknown ((k, info) ∷ tracker) key g =
      let other : same_key k key ≡ false = ground arith in
      let unknown : find_entry same_key tracker key ≡ none = ground arith in
      let swapped : same_key key k ≡ false = ground arith in
      elim (Bool-cases (is_unreceived node now max_delay_ms reported k info)) [
        | inl e ↦ rw e (ground (arith, missing-unknown tracker key unknown))
        | inr e ↦ rw e (missing-unknown tracker key unknown)
      ]

  unreceived-facts :
      (key : MessageKey) (info : MessageInfo)
      → is_unreceived node now max_delay_ms reported key info ≡ true
      → (is_reported reported node key ≡ false) × (sent_by_other node info ≡ true)
  unfolding is_unreceived
  unreceived-facts key info e = ground arith

  pub missing-ReportedOnce :
      (tracker : Tracker)
      → IsApart same_key tracker
      → ReportedOnce reported
      → ReportedOnce (marked node (missing tracker) ++ reported)
  unfolding get_unreceived_messages_for_node
  missing-ReportedOnce [] a once = once
  missing-ReportedOnce ((k, info) ∷ tracker) a once =
      elim (Bool-cases (is_unreceived node now max_delay_ms reported k info)) [
        | inl e ↦ rw e (
          is_reported-append (marked node (missing tracker)) reported node k
              ∙ rw (missing-unknown tracker k a.0) (unreceived-facts k info e).0,
          missing-ReportedOnce tracker a.1 once,
        )
        | inr e ↦ rw e (missing-ReportedOnce tracker a.1 once)
      ]

  under-SentByOther :
      (k : MessageKey) (info : MessageInfo) (tracker : Tracker)
      → find_entry same_key tracker k ≡ none
      → (r : ℕ × MessageKey) → IsSentByOther tracker r
      → IsSentByOther ((k, info) ∷ tracker) r
  unfolding find_entry
  under-SentByOther k info tracker fresh (n, key) (old, g, s) = elim (Bool-cases (same_key k key)) [
    | inl e ↦ absurd (
        some-none (
          sym g ∙ subst (λ x. find_entry same_key tracker x ≡ none) (same_key_sound k key e) fresh))
    | inr e ↦ (old, rw e g, s)
  ]

  pub missing-SentByOther :
      (tracker : Tracker)
      → IsApart same_key tracker
      → AllOf (IsSentByOther tracker) (marked node (missing tracker))
  unfolding get_unreceived_messages_for_node
  missing-SentByOther [] a = tt
  missing-SentByOther ((k, info) ∷ tracker) a =
      let rest =
        AllOf-map _ _ (marked node (missing tracker)) (under-SentByOther k info tracker a.0)
          (missing-SentByOther tracker a.1) in
      elim (Bool-cases (is_unreceived node now max_delay_ms reported k info)) [
        | inl e ↦ rw e (
          (info, unfold find_entry in rw (same_key_refl k) refl, (unreceived-facts k info e).1),
          rest,
        )
        | inr e ↦ rw e rest
      ]
