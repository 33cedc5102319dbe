-- ===== src/Simclient/Ledger/Records.antt =====
-- src/pic_agentic/simclient/client.py: what the records tell of the executions, and how a write
-- preserves it.
use mathlib.Core.Path.{subst}
use pic_agentic.Common.{
  suc, ◌≤◌, ◌<◌, String, ◌≡◌, refl, sym, ap, ◌∙◌, true, false, Option, none, some, List, [], ◌∷◌,
  ◌++◌, inl, inr, ◌⊎◌, arith, eq_iff, length, is_empty, str_eq, ltb, Bool-cases, All, All-map,
}
use pic_agentic.Common.Dict.{Dict, get, put, get-put, put-put}
use pic_agentic.Simclient.Ledger.{ProcessedCommand, Ledger, index, persist_processed}
use pic_agentic.Simclient.Ledger.Steps.{works}

-- The ledger has a record of an execution, with its payload hash, which is not empty.
abbrev pub IsRecorded : Dict ProcessedCommand → String × String → Type 0
IsRecorded d x =
    (r : ProcessedCommand) × (get x.0 d ≡ some r)
    × (r.payload_hash ≡ some x.1)
    × (is_empty x.1 ≡ false)

-- No command of the list is `c`.
abbrev pub IsNew : String → List (String × String) → Type 0
IsNew c = All (λ (x : String × String). str_eq x.0 c ≡ false)

abbrev pub Distinct : List (String × String) → Type 0
Distinct [] = Unit
Distinct (x ∷ xs) = IsNew x.0 xs × Distinct xs

-- The records of the executions, which a restart finds again, and each command executed once.
pub record IsExact (s : Ledger) : Type 0 where
  pub recorded : All (IsRecorded s.processed) s.executed
  pub durable : index s.file [] ≡ s.processed
  pub once : Distinct s.executed

pub length-put :
    (k : String) (r : ProcessedCommand) (d : Dict ProcessedCommand)
    → length (put k r d) ≤ suc (length d)
unfolding put
length-put k r [] = omega arith
length-put k r ((j, v) ∷ d) = ground (arith, length-put k r d)

pub index-snoc :
    (rs : List ProcessedCommand) (r : ProcessedCommand) (d : Dict ProcessedCommand)
    → index (rs ++ r ∷ []) d ≡ put r.cmd_id r (index rs d)
unfolding index
index-snoc [] r d = refl
index-snoc (x ∷ rs) r d = index-snoc rs r (put x.cmd_id x d)

abbrev pub written : ProcessedCommand → Ledger → Ledger
written r s = record s { processed = put r.cmd_id r s.processed; file = s.file ++ r ∷ [] }

pub persist-written :
    (r : ProcessedCommand) (s : Ledger)
    → length (put r.cmd_id r s.processed) ≤ s.limit
    → persist_processed works r s ≡ written r s
unfolding persist_processed
persist-written r s room =
    let fits : ltb s.limit (length (put r.cmd_id r s.processed)) ≡ false = ground arith in
    rw fits refl

-- A record that is new, or that repeats the payload hash of an execution, spoils nothing.
pub IsRecorded-put :
    (r : ProcessedCommand) (d : Dict ProcessedCommand) (x : String × String)
    → (str_eq x.0 r.cmd_id ≡ false) ⊎ (r.payload_hash ≡ some x.1)
    → IsRecorded d x
    → IsRecorded (put r.cmd_id r d) x
IsRecorded-put r d x ok h = elim (Bool-cases (str_eq r.cmd_id x.0)) [
  | inr other ↦ (h.0, rw (get-put r.cmd_id x.0 r d, other) (h.1), h.2, h.3)
  | inl same ↦ (
    r,
    rw (get-put r.cmd_id x.0 r d, same) refl,
    the_same r x ok ((eq_iff r.cmd_id x.0).0 same),
    h.3,
  )
]
  where
    the_same :
        (r : ProcessedCommand) (x : String × String)
        → (str_eq x.0 r.cmd_id ≡ false) ⊎ (r.payload_hash ≡ some x.1)
        → r.cmd_id ≡ x.0
        → r.payload_hash ≡ some x.1
    the_same r x (inr e) same = e
    the_same r x (inl ne) same =
        let bad : false ≡ true = sym ne ∙ (eq_iff x.0 r.cmd_id).1 (sym same) in cc

-- What a record may be about: no execution so far, or one with its payload hash.
abbrev pub Fits : ProcessedCommand → List (String × String) → Type 0
Fits r = All (λ (x : String × String). (str_eq x.0 r.cmd_id ≡ false) ⊎ (r.payload_hash ≡ some x.1))

pub executions-put :
    (r : ProcessedCommand) (d : Dict ProcessedCommand) (xs : List (String × String))
    → Fits r xs
    → All (IsRecorded d) xs
    → All (IsRecorded (put r.cmd_id r d)) xs
executions-put r d [] fits h = tt
executions-put r d (x ∷ xs) fits h =
    (IsRecorded-put r d x fits.0 h.0, executions-put r d xs fits.1 h.1)

pub written-IsExact :
    (r : ProcessedCommand) (s : Ledger) → IsExact s → Fits r s.executed → IsExact (written r s)
written-IsExact r s h fits = record {
  recorded = executions-put r s.processed s.executed fits h.recorded;
  durable = index-snoc s.file r [] ∙ ap (put r.cmd_id r) h.durable;
  once = h.once;
}

pub persist-IsExact :
    (r : ProcessedCommand) (s : Ledger)
    → length (put r.cmd_id r s.processed) ≤ s.limit
    → IsExact s
    → Fits r s.executed
    → IsExact (persist_processed works r s)
persist-IsExact r s room h fits = rw (persist-written r s room) (written-IsExact r s h fits)

pub new-Fits : (r : ProcessedCommand) (xs : List (String × String)) → IsNew r.cmd_id xs → Fits r xs
new-Fits r xs = All-map (λ (x : String × String) (ne : str_eq x.0 r.cmd_id ≡ false). inl ne) xs

pub reply-IsExact :
    (s t : Ledger)
    → IsExact s
    → t.processed ≡ s.processed
    → t.file ≡ s.file
    → t.executed ≡ s.executed
    → IsExact t
reply-IsExact s t h a b c = record {
  recorded = rw (a, c) h.recorded;
  durable = rw (a, b) h.durable;
  once = rw c h.once;
}

-- A command without a record, or with a record of no payload hash, was not executed.
module _ (c : String) (d : Dict ProcessedCommand) where
  pub unrecorded-IsNew :
      (xs : List (String × String))
      → ((r : ProcessedCommand)
          → get c d ≡ some r
          → (h : String) → r.payload_hash ≡ some h
          → is_empty h ≡ true)
      → All (IsRecorded d) xs
      → IsNew c xs
  unrecorded-IsNew [] blank h = tt
  unrecorded-IsNew (x ∷ xs) blank h =
      (apart x h.0 (Bool-cases (str_eq x.0 c)), unrecorded-IsNew xs blank h.1)
    where
      apart :
          (x : String × String)
          → IsRecorded d x
          → (str_eq x.0 c ≡ true) ⊎ (str_eq x.0 c ≡ false)
          → str_eq x.0 c ≡ false
      apart x r (inr ne) = ne
      apart x r (inl same) =
          let at : get c d ≡ some r.0 =
            subst (λ (k : String). get k d ≡ some r.0) ((eq_iff x.0 c).0 same) r.1 in
          let bad : false ≡ true = sym r.3 ∙ blank r.0 at x.1 r.2 in cc

pub absent-IsNew :
    (c : String) (s : Ledger) → IsExact s → get c s.processed ≡ none → IsNew c s.executed
absent-IsNew c s h absent =
    unrecorded-IsNew c s.processed s.executed
      (λ r at x e.
        let bad : ◌≡◌ {A = Option ProcessedCommand} none (some r) = sym absent ∙ at in cc)
      h.recorded

pub room_for :
    (r : ProcessedCommand) (s : Ledger)
    → length s.processed < s.limit
    → length (put r.cmd_id r s.processed) ≤ s.limit
room_for r s room = omega (arith, length-put r.cmd_id r s.processed, room)

-- A second record of the same command needs no more room.
pub room_again :
    (c : String) (r q : ProcessedCommand) (s : Ledger)
    → length s.processed < s.limit
    → length (put c q (put c r s.processed)) ≤ s.limit
room_again c r q s room =
    rw (put-put c r q s.processed) (omega (arith, length-put c q s.processed, room))
