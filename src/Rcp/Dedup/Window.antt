-- ===== src/Rcp/Dedup/Window.antt =====
-- src/pic_agentic/rcp/state.py: the store against a window of the last `maxlen` keys that were new.
use mathlib.Core.List.{append_assoc}
use pic_agentic.Common.{
  ℕ, suc, ◌+◌, ◌≤◌, ◌<◌, ◌≡◌, refl, sym, ap, ◌∙◌, true, false, not, ◌||◌, List, [], ◌∷◌, ◌++◌,
  arith, ltb, inl, inr, Bool-cases, length, length-append, texts_eq, texts_eq_iff, if◌then◌else◌,
}
use pic_agentic.Rcp.Dedup.{Key, has_key, discard, DedupStore, empty_store, trim, seen}

-- No key stands twice.
abbrev pub Distinct : List Key → Type 0
Distinct [] = Unit
Distinct (k ∷ ks) = (has_key k ks ≡ false) × Distinct ks

-- The set holds what the queue holds, each key once, and there are at most `maxlen`.
pub record IsConsistent (s : DedupStore) : Type 0 where
  pub same : (k : Key) → has_key k s.keys ≡ has_key k s.order
  pub distinct : Distinct s.order
  pub bounded : length s.order ≤ s.maxlen

has_key-append :
    (k : Key) (xs ys : List Key) → has_key k (xs ++ ys) ≡ (has_key k xs || has_key k ys)
unfolding has_key
has_key-append k [] ys = refl
has_key-append k (x ∷ xs) ys = ground (arith, has_key-append k xs ys)

has_key-discard :
    (k j : Key) (xs : List Key)
    → has_key k (discard j xs) ≡ (if texts_eq j k then false else has_key k xs)
unfolding has_key discard
has_key-discard k j [] = ground arith
has_key-discard k j (x ∷ xs) =
    ground (arith, has_key-discard k j xs, texts_eq_iff j k, texts_eq_iff x j, texts_eq_iff x k)

Distinct-snoc :
    (k : Key) (xs : List Key) → Distinct xs → has_key k xs ≡ false → Distinct (xs ++ k ∷ [])
unfolding has_key
Distinct-snoc k [] d h = (refl, tt)
Distinct-snoc k (x ∷ xs) d h = (
  rw (has_key-append x xs (k ∷ [])) (ground (arith, texts_eq_iff x k, texts_eq_iff k x, d.0)),
  Distinct-snoc k xs d.1 (ground arith),
)

-- The contract: forget the oldest of more than `maxlen` keys.
pub shift : ℕ → List Key → List Key
shift maxlen [] = []
shift maxlen (oldest ∷ rest) = if ltb maxlen (length (oldest ∷ rest)) then rest else oldest ∷ rest

order-trim : (s : DedupStore) (l : List Key) → s.order ≡ l → (trim s l).order ≡ shift s.maxlen l
unfolding trim shift
order-trim s [] e = e
order-trim s (oldest ∷ rest) e = ground arith

trim-IsConsistent :
    (s : DedupStore) (l : List Key)
    → s.order ≡ l
    → ((k : Key) → has_key k s.keys ≡ has_key k l)
    → Distinct l
    → length l ≤ s.maxlen + 1
    → IsConsistent (trim s l)
unfolding trim has_key
trim-IsConsistent s [] e same d b = record {
  same = λ k. rw e (same k);
  distinct = rw e tt;
  bounded = rw e (omega arith);
}
trim-IsConsistent s (oldest ∷ rest) e same d b = elim (Bool-cases (ltb s.maxlen (length s.order))) [
  | inl full ↦ rw full (record {
    same = λ k.
        rw (has_key-discard k oldest s.keys) (ground (arith, same k, texts_eq_iff oldest k, d.0));
    distinct = d.1;
    bounded = omega arith;
  })
  | inr room ↦
      rw room (record { same = λ k. rw e (same k); distinct = rw e d; bounded = ground arith })
]

-- In a consistent store, one call of `seen` is a test of the window and, for a new key, a shift of it.
pub seen-shift :
    (k : Key) (s : DedupStore)
    → IsConsistent s
    → ((seen k s).0 ≡ not (has_key k s.order))
      × ((seen k s).1.order
          ≡ (if has_key k s.order then s.order else shift s.maxlen (s.order ++ k ∷ [])))
unfolding seen
seen-shift k s h =
    let appended : DedupStore = record s { keys = k ∷ s.keys; order = s.order ++ k ∷ [] } in
    elim (Bool-cases (has_key k s.keys)) [
      | inl old ↦ rw (old, sym (h.same k) ∙ old) (refl, refl)
      | inr new ↦ rw (new, sym (h.same k) ∙ new) (refl, order-trim appended appended.order refl)
    ]

pub seen-IsConsistent : (k : Key) (s : DedupStore) → IsConsistent s → IsConsistent (seen k s).1
unfolding seen has_key
seen-IsConsistent k s h =
    let appended : DedupStore = record s { keys = k ∷ s.keys; order = s.order ++ k ∷ [] } in
    elim (Bool-cases (has_key k s.keys)) [
      | inl old ↦ rw old h
      | inr new ↦ rw new (
          trim-IsConsistent appended appended.order refl
            (λ j. rw (has_key-append j s.order (k ∷ []), h.same j) (ground arith))
            (Distinct-snoc k s.order h.distinct (sym (h.same k) ∙ new))
            (omega (arith, length-append s.order (k ∷ []), h.bounded)))
    ]

-- One message after the other.
unfoldable pub feed : List Key → DedupStore → DedupStore
feed [] s = s
feed (k ∷ ks) s = feed ks (seen k s).1

-- `k` is in the queue with `n` keys behind it.
record IsQueued (k : Key) (n : ℕ) (s : DedupStore) : Type 0 where
  before : List Key
  behind : List Key
  split : s.order ≡ before ++ k ∷ behind
  count : length behind ≤ n

has_key-middle : (k : Key) (xs ys : List Key) → has_key k (xs ++ k ∷ ys) ≡ true
unfolding has_key
has_key-middle k [] ys = ground (arith, texts_eq_iff k k)
has_key-middle k (x ∷ xs) ys = ground (arith, has_key-middle k xs ys)

shift-IsQueued :
    (k j : Key) (maxlen n : ℕ) (before behind order : List Key)
    → order ≡ before ++ k ∷ behind
    → length behind ≤ n
    → suc n < maxlen
    → (b : List Key) × (shift maxlen (order ++ j ∷ []) ≡ b ++ k ∷ (behind ++ j ∷ []))
unfolding shift
shift-IsQueued k j maxlen n [] behind order e c h =
    ([], rw e (ground (arith, length-append behind (j ∷ []))))
shift-IsQueued k j maxlen n (x ∷ before) behind order e c h =
    elim (Bool-cases (ltb maxlen (length (x ∷ (before ++ k ∷ behind) ++ j ∷ [])))) [
      | inl full ↦ (before, rw (e, full) (append_assoc before (k ∷ behind) (j ∷ [])))
      | inr room ↦
          (x ∷ before, rw (e, room) (ap (λ l. x ∷ l) (append_assoc before (k ∷ behind) (j ∷ []))))
    ]

seen-IsQueued :
    (k j : Key) (n : ℕ) (s : DedupStore)
    → IsConsistent s
    → IsQueued k n s
    → suc n < s.maxlen
    → IsQueued k (suc n) (seen j s).1
seen-IsQueued k j n s h q room = elim (Bool-cases (has_key j s.order)) [
  | inl old ↦ record {
    before = q.before;
    behind = q.behind;
    split = (seen-shift j s h).1 ∙ rw old q.split;
    count = omega (arith, q.count);
  }
  | inr new ↦
      let (b, e) = shift-IsQueued k j s.maxlen n q.before q.behind s.order q.split q.count room in
      record {
        before = b;
        behind = q.behind ++ j ∷ [];
        split = (seen-shift j s h).1 ∙ rw new e;
        count = omega (arith, length-append q.behind (j ∷ []), q.count);
      }
]

maxlen-trim : (s : DedupStore) (l : List Key) → (trim s l).maxlen ≡ s.maxlen
unfolding trim
maxlen-trim s [] = refl
maxlen-trim s (oldest ∷ rest) = ground arith

maxlen-seen : (k : Key) (s : DedupStore) → (seen k s).1.maxlen ≡ s.maxlen
unfolding seen
maxlen-seen k s =
    let appended : DedupStore = record s { keys = k ∷ s.keys; order = s.order ++ k ∷ [] } in
    ground (arith, maxlen-trim appended appended.order)

feed_queued :
    (ks : List Key) (k : Key) (n : ℕ) (s : DedupStore)
    → IsConsistent s
    → IsQueued k n s
    → n + length ks < s.maxlen
    → (seen k (feed ks s)).0 ≡ false
unfolding feed
feed_queued [] k n s h q room =
    (seen-shift k s h).0 ∙ rw (q.split, has_key-middle k q.before q.behind) refl
feed_queued (j ∷ ks) k n s h q room =
    feed_queued ks k (suc n) (seen j s).1 (seen-IsConsistent j s h)
      (seen-IsQueued k j n s h q (omega arith)) (omega (arith, maxlen-seen j s))

shift_snoc :
    (k : Key) (maxlen : ℕ) (order : List Key)
    → 0 < maxlen
    → (b : List Key) × (shift maxlen (order ++ k ∷ []) ≡ b ++ k ∷ [])
unfolding shift
shift_snoc k maxlen [] h = ([], ground arith)
shift_snoc k maxlen (x ∷ order) h = elim (Bool-cases (ltb maxlen (length (x ∷ order ++ k ∷ [])))) [
  | inl full ↦ (order, rw full)
  | inr room ↦ (x ∷ order, rw room)
]

first_in_line :
    (k : Key) (s : DedupStore)
    → IsConsistent s
    → (seen k s).0 ≡ true
    → 0 < s.maxlen
    → IsQueued k 0 (seen k s).1
first_in_line k s h new room =
    let absent : has_key k s.order ≡ false = ground (arith, (seen-shift k s h).0) in
    let (b, e) = shift_snoc k s.maxlen s.order room in
    record {
      before = b;
      behind = [];
      split = (seen-shift k s h).1 ∙ rw absent e;
      count = omega arith;
    }

-- A message that was new to a consistent store is a duplicate from then on, as long as fewer than
-- `maxlen` messages came in between.
pub seen-seen :
    (k : Key) (ks : List Key) (s : DedupStore)
    → IsConsistent s
    → (seen k s).0 ≡ true
    → length ks < s.maxlen
    → (seen k (feed ks (seen k s).1)).0 ≡ false
seen-seen k ks s h new room =
    feed_queued ks k 0 (seen k s).1 (seen-IsConsistent k s h)
      (first_in_line k s h new (omega arith)) (omega (arith, maxlen-seen k s))

feed_keeps : (ks : List Key) (s : DedupStore) → IsConsistent s → IsConsistent (feed ks s)
unfolding feed
feed_keeps [] s h = h
feed_keeps (k ∷ ks) s h = feed_keeps ks (seen k s).1 (seen-IsConsistent k s h)

maxlen-feed : (ks : List Key) (s : DedupStore) → (feed ks s).maxlen ≡ s.maxlen
unfolding feed
maxlen-feed [] s = refl
maxlen-feed (k ∷ ks) s = maxlen-feed ks (seen k s).1 ∙ maxlen-seen k s

-- From an empty store, whatever comes, the set and the queue agree, hold each key once and hold at
-- most `maxlen` keys.
pub feed-IsConsistent :
    (ks : List Key) (maxlen : ℕ)
    → IsConsistent (feed ks (empty_store maxlen))
      × (length (feed ks (empty_store maxlen)).order ≤ maxlen)
feed-IsConsistent ks maxlen =
    let start = empty_store maxlen in
    let kept =
      feed_keeps ks start (record { same = λ k. refl; distinct = tt; bounded = omega arith }) in
    (kept, omega (arith, kept.bounded, maxlen-feed ks start))
