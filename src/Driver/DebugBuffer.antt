-- ===== src/Driver/DebugBuffer.antt =====
-- The debug ring buffer of crates/rbft-node/src/rbft_consensus.rs, oldest entry first. An entry is its
-- time and its text, a number.
use rbft.Base.{
  ℕ, ◌≤◌, ◌≡◌, subst, List, [], ◌∷◌, ◌++◌, true, false, ltb, leb, if◌then◌else◌, length,
  length-append, AllOf, arith, Bool-cases, inl, inr,
}

abbrev pub Entry : Type 0
Entry = ℕ × ℕ

abbrev pub debug_buffer_max_entries : ℕ
debug_buffer_max_entries = 10000

abbrev pub pop_front : List Entry → List Entry
pop_front [] = []
pop_front (e ∷ es) = es

unfoldable pub push_debug_entry : List Entry → ℕ → ℕ → List Entry
push_debug_entry buffer now msg =
    (if leb debug_buffer_max_entries (length buffer) then pop_front buffer else buffer)
    ++ ((now, msg) ∷ [])

-- The pruning of the run loop: pops the front while it is older than the cutoff.
unfoldable pub prune_stale : ℕ → List Entry → List Entry
prune_stale cutoff [] = []
prune_stale cutoff (e ∷ es) = elim (ltb e.0 cutoff) [
  | true ↦ prune_stale cutoff es
  | false ↦ e ∷ es
]

-- What is logged, and the buffer after it.
unfoldable pub flush_debug_buffer : List Entry → List Entry × List Entry
flush_debug_buffer buffer = (buffer, [])

-- The times ascend.
abbrev pub InOrder : List Entry → Type 0
InOrder [] = Unit {0}
InOrder (e ∷ es) = AllOf (λ x. e.0 ≤ x.0) es × InOrder es

AllOf-append_one :
    (P : Entry → Type 0) (es : List Entry) (x : Entry) → AllOf P es → P x → AllOf P (es ++ (x ∷ []))
AllOf-append_one P [] x w h = (h, tt)
AllOf-append_one P (e ∷ es) x w h = (w.0, AllOf-append_one P es x w.1 h)

InOrder-append_one :
    (es : List Entry) (x : Entry)
    → InOrder es
    → AllOf (λ e. e.0 ≤ x.0) es
    → InOrder (es ++ (x ∷ []))
InOrder-append_one [] x w h = (tt, tt)
InOrder-append_one (e ∷ es) x w h =
    (AllOf-append_one (λ y. e.0 ≤ y.0) es x w.0 h.0, InOrder-append_one es x w.1 h.1)

pushed :
    (buffer : List Entry) (now msg : ℕ)
    → InOrder buffer
    → AllOf (λ e. e.0 ≤ now) buffer
    → InOrder (push_debug_entry buffer now msg)
      × AllOf (λ e. e.0 ≤ now) (push_debug_entry buffer now msg)
unfolding push_debug_entry
pushed [] now msg w h = ((tt, tt), (omega arith, tt))
pushed (e ∷ es) now msg w h = elim (Bool-cases (leb 10000 (length (e ∷ es)))) [
  | inl full ↦ rw full (
    InOrder-append_one es (now, msg) w.1 h.1,
    AllOf-append_one (λ x. x.0 ≤ now) es (now, msg) h.1 (omega arith),
  )
  | inr room ↦ rw room (
    InOrder-append_one (e ∷ es) (now, msg) w h,
    AllOf-append_one (λ x. x.0 ≤ now) (e ∷ es) (now, msg) h (omega arith),
  )
]

push-length :
    (buffer : List Entry) (now msg : ℕ)
    → length buffer ≤ 10000
    → length (push_debug_entry buffer now msg) ≤ 10000
unfolding push_debug_entry
push-length [] now msg h = omega arith
push-length (e ∷ es) now msg h =
    ground (arith, length-append es ((now, msg) ∷ []), length-append (e ∷ es) ((now, msg) ∷ []))

AllOf-from :
    (cutoff t : ℕ) (es : List Entry)
    → cutoff ≤ t
    → AllOf (λ x. t ≤ x.0) es
    → AllOf (λ x. cutoff ≤ x.0) es
AllOf-from cutoff t [] h w = tt
AllOf-from cutoff t (e ∷ es) h w = (omega arith, AllOf-from cutoff t es h w.1)

pruned :
    (cutoff : ℕ) (es : List Entry) → InOrder es → AllOf (λ e. cutoff ≤ e.0) (prune_stale cutoff es)
unfolding prune_stale
pruned cutoff [] w = tt
pruned cutoff (e ∷ es) w = elim (Bool-cases (ltb e.0 cutoff)) [
  | inl old ↦ rw (prune_stale, old) (pruned cutoff es w.1)
  | inr young ↦
      let recent : cutoff ≤ e.0 = ground arith in
      rw (prune_stale, young) (recent, AllOf-from cutoff e.0 es recent w.0)
]

prune-keeps_recent :
    (cutoff : ℕ) (P : Entry → Type 0) (es : List Entry)
    → AllOf P es
    → AllOf P (prune_stale cutoff es)
unfolding prune_stale
prune-keeps_recent cutoff P [] w = tt
prune-keeps_recent cutoff P (e ∷ es) w = elim (Bool-cases (ltb e.0 cutoff)) [
  | inl old ↦ rw (prune_stale, old) (prune-keeps_recent cutoff P es w.1)
  | inr young ↦ rw (prune_stale, young) w
]

prune-InOrder : (cutoff : ℕ) (es : List Entry) → InOrder es → InOrder (prune_stale cutoff es)
unfolding prune_stale
prune-InOrder cutoff [] w = tt
prune-InOrder cutoff (e ∷ es) w = elim (Bool-cases (ltb e.0 cutoff)) [
  | inl old ↦ rw (prune_stale, old) (prune-InOrder cutoff es w.1)
  | inr young ↦ rw (prune_stale, young) w
]

prune-length : (cutoff : ℕ) (es : List Entry) → length (prune_stale cutoff es) ≤ length es
unfolding prune_stale
prune-length cutoff [] = omega arith
prune-length cutoff (e ∷ es) = elim (Bool-cases (ltb e.0 cutoff)) [
  | inl old ↦ rw (prune_stale, old) (omega (arith, prune-length cutoff es))
  | inr young ↦ rw (prune_stale, young) (omega arith)
]

-- What the driver does with the buffer, at a time.
pub data Use : Type 0 where
  push_entry : ℕ → Use
  prune_before : ℕ → Use
  flush_all : Use

unfoldable pub use_buffer : List Entry → ℕ → Use → List Entry
use_buffer buffer now (push_entry msg) = push_debug_entry buffer now msg
use_buffer buffer now (prune_before cutoff) = prune_stale cutoff buffer
use_buffer buffer now flush_all = (flush_debug_buffer buffer).1

-- The buffer at a time: at most 10000 entries, in the order of their times, none from the future.
pub record IsBuffer (now : ℕ) (buffer : List Entry) : Type 0 where
  pub few : length buffer ≤ 10000
  pub in_order : InOrder buffer
  pub past : AllOf (λ e. e.0 ≤ now) buffer

AllOf-past :
    (now later : ℕ) (es : List Entry)
    → now ≤ later
    → AllOf (λ e. e.0 ≤ now) es
    → AllOf (λ e. e.0 ≤ later) es
AllOf-past now later [] h w = tt
AllOf-past now later (e ∷ es) h w = (omega arith, AllOf-past now later es h w.1)

-- Every push through `push_debug_entry`, every pruning and every flush, at a time not before the last,
-- keeps the buffer at 10000 entries at most and in the order of its times; and after a pruning no entry
-- is older than the cutoff.
pub use_buffer-IsBuffer :
    (buffer : List Entry) (now later : ℕ) (u : Use)
    → now ≤ later
    → IsBuffer now buffer
    → IsBuffer later (use_buffer buffer later u)
      × ((cutoff : ℕ)
          → u ≡ prune_before cutoff
          → AllOf (λ e. cutoff ≤ e.0) (use_buffer buffer later u))
unfolding use_buffer
use_buffer-IsBuffer buffer now later (push_entry msg) h v =
    let (o, p) = pushed buffer later msg v.in_order (AllOf-past now later buffer h v.past) in
    (record { few = push-length buffer later msg v.few; in_order = o; past = p }, λ c e. cc)
use_buffer-IsBuffer buffer now later (prune_before cutoff) h v = (
  record {
    few = omega (arith, prune-length cutoff buffer, v.few);
    in_order = prune-InOrder cutoff buffer v.in_order;
    past =
        prune-keeps_recent cutoff (λ e. e.0 ≤ later) buffer (AllOf-past now later buffer h v.past);
  },
  λ c e.
      let same : cutoff ≡ c = cc in
      subst (λ x. AllOf (λ y. x ≤ y.0) (prune_stale cutoff buffer)) same
        (pruned cutoff buffer v.in_order),
)
use_buffer-IsBuffer buffer now later flush_all h v =
    (unfold flush_debug_buffer in record { few = omega arith; in_order = tt; past = tt }, λ c e. cc)
