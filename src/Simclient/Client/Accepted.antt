-- ===== src/Simclient/Client/Accepted.antt =====
-- src/pic_agentic/simclient/client.py: repeated messages through `handle`.
use pic_agentic.Common.{
  ◌≤◌, ◌<◌, String, ◌≡◌, refl, sym, ap, ◌∙◌, Bool, true, false, ◌&&◌, List, [], ◌∷◌, inl, inr,
  arith, length, is_some, Bool-cases, if◌then◌else◌,
}
use pic_agentic.Common.Float.{ℤ}
use pic_agentic.Rcp.Envelope.{RcpMessage, Platform, dedup_key}
use pic_agentic.Rcp.Dedup.{Key, DedupStore, seen}
use pic_agentic.Rcp.Dedup.Window.{IsConsistent, feed, seen-seen}
use pic_agentic.Rcp.Sequence.{SequenceState}
use pic_agentic.Simclient.Client.{SimClient, is_valid, accepts, handle, handle_all}

module _ (p : Platform) (py_str : ℤ → String) where
  -- The keys of the messages that pass the checks.
  keys_of : SimClient → List RcpMessage → List Key
  keys_of c [] = []
  keys_of c (m ∷ ms) =
      let rest = keys_of c ms in if is_valid p py_str c m then dedup_key py_str m ∷ rest else rest

  length-keys_of : (c : SimClient) (ms : List RcpMessage) → length (keys_of c ms) ≤ length ms
  unfolding keys_of
  length-keys_of c [] = omega arith
  length-keys_of c (m ∷ ms) = ground (arith, length-keys_of c ms)

  -- What `handle` never changes, and what it does to the store.
  record IsAfter (m : RcpMessage) (c d : SimClient) : Type 0 where
    same_valid : (n : RcpMessage) → is_valid p py_str d n ≡ is_valid p py_str c n
    store : d.seen_store ≡ (
        if is_valid p py_str c m then (seen (dedup_key py_str m) c.seen_store).1 else c.seen_store)

  updated :
      (c : SimClient) (store : DedupStore) (sequences : SequenceState) (n : RcpMessage)
      → is_valid p py_str (record c { seen_store = store; sequences = sequences }) n
        ≡ is_valid p py_str c n
  unfolding is_valid
  updated c store sequences n = refl

  held :
      (c : SimClient) (store : DedupStore) (n : RcpMessage)
      → is_valid p py_str (record c { seen_store = store }) n ≡ is_valid p py_str c n
  unfolding is_valid
  held c store n = refl

  handle-IsAfter : (m : RcpMessage) (c : SimClient) → IsAfter m c (handle p py_str m c).1
  unfolding handle accepts
  handle-IsAfter m c = elim (Bool-cases (is_valid p py_str c m)) [
    | inr refused ↦
        rw (handle, refused) (record { same_valid = λ n. refl; store = rw refused refl })
    | inl valid ↦ elim (Bool-cases (seen (dedup_key py_str m) c.seen_store).0) [
      | inl new ↦
          rw (handle, valid, new) (record { same_valid = updated c _ _; store = rw valid refl })
      | inr old ↦ rw (handle, valid, old) (record { same_valid = held c _; store = rw valid refl })
    ]
  ]

  -- The same checks and, after all of them, the store that has seen the keys.
  record IsAfterAll (ms : List RcpMessage) (c d : SimClient) : Type 0 where
    same_valid : (n : RcpMessage) → is_valid p py_str d n ≡ is_valid p py_str c n
    store : d.seen_store ≡ feed (keys_of c ms) c.seen_store

  keys_of-same :
      (c d : SimClient) (ms : List RcpMessage)
      → ((n : RcpMessage) → is_valid p py_str d n ≡ is_valid p py_str c n)
      → keys_of d ms ≡ keys_of c ms
  unfolding keys_of
  keys_of-same c d [] same = refl
  keys_of-same c d (m ∷ ms) same = rw (same m, keys_of-same c d ms same) refl

  handle_all-IsAfterAll :
      (ms : List RcpMessage) (c : SimClient) → IsAfterAll ms c (handle_all p py_str ms c)
  unfolding handle_all keys_of feed
  handle_all-IsAfterAll [] c = record { same_valid = λ n. refl; store = refl }
  handle_all-IsAfterAll (m ∷ ms) c =
      let d : SimClient = (handle p py_str m c).1 in
      let one = handle-IsAfter m c in
      let rest = handle_all-IsAfterAll ms d in
      record {
        same_valid = λ n. rest.same_valid n ∙ one.same_valid n;
        store =
            rest.store
            ∙ ap (λ (ks : List Key). feed ks d.seen_store) (keys_of-same c d ms one.same_valid)
            ∙ elim (Bool-cases (is_valid p py_str c m)) [
              | inl valid ↦ rw (one.store, valid) refl
              | inr refused ↦ rw (one.store, refused) refl
            ];
      }

  is_some-handle :
      (m : RcpMessage) (c : SimClient)
      → is_some (handle p py_str m c).0
        ≡ (is_valid p py_str c m && (seen (dedup_key py_str m) c.seen_store).0)
  unfolding handle accepts
  is_some-handle m c = elim (Bool-cases (is_valid p py_str c m)) [
    | inr refused ↦ rw (handle, refused) refl
    | inl valid ↦ elim (Bool-cases (seen (dedup_key py_str m) c.seen_store).0) [
      | inl new ↦ rw (handle, valid, new) refl
      | inr old ↦ rw (handle, valid, old) refl
    ]
  ]

  -- A message that was answered is ignored when it comes again, if fewer than `maxlen` messages, valid or
  -- not, came in between and the window of the client was consistent before.
  pub handle-handled :
      (m : RcpMessage) (ms : List RcpMessage) (c : SimClient)
      → IsConsistent c.seen_store
      → is_some (handle p py_str m c).0 ≡ true
      → length ms < c.seen_store.maxlen
      → is_some (handle p py_str m (handle_all p py_str ms (handle p py_str m c).1)).0 ≡ false
  handle-handled m ms c consistent answered room =
      let key : Key = dedup_key py_str m in
      let d : SimClient = (handle p py_str m c).1 in
      let e : SimClient = handle_all p py_str ms d in
      let both : is_valid p py_str c m && (seen key c.seen_store).0 ≡ true =
        sym (is_some-handle m c) ∙ answered in
      let valid : is_valid p py_str c m ≡ true = ground arith in
      let new : (seen key c.seen_store).0 ≡ true = ground arith in
      let one : d.seen_store ≡ (seen key c.seen_store).1 =
        (handle-IsAfter m c).store ∙ rw valid refl in
      let all : e.seen_store ≡ feed (keys_of d ms) (seen key c.seen_store).1 =
        (handle_all-IsAfterAll ms d).store ∙ ap (feed (keys_of d ms)) one in
      let again : (seen key e.seen_store).0 ≡ false = rw all (
        seen-seen key (keys_of d ms) c.seen_store consistent new
          (omega (arith, length-keys_of d ms, room))) in
      is_some-handle m e ∙ rw again (and_false (is_valid p py_str e m))
    where
      and_false : (b : Bool) → b && false ≡ false
      and_false true = refl
      and_false false = refl
